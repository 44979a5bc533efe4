-- ===== src/Supervisor/Pool/Valid/Moves.antt =====
-- services/supervisor/src/run.ts: the invariant when a server is retired, and when one is
-- admitted.
use sproutboat.Base.{
  ℕ, ◌≤◌, ◌≡◌, sym, ◌∙◌, ◌≢◌, true, false, none, some, ◌⊎◌, inl, inr, ne_of_beq, nat_eq, string_eq,
  arith, Bool-cases,
}
use sproutboat.Base.Dict
use sproutboat.Base.Dict.{get-insert, get-delete, get-insert_self, insert-Unique, delete-Unique}
use sproutboat.Base.Bag
use sproutboat.Base.Bag.{has-add, has-delete}
use sproutboat.Supervisor.Pool.State.{
  SproutServer, SproutPool, place, close_server, port_of, release_port, retire,
}
use sproutboat.Supervisor.Pool.Endpoint.{admit_server}
use Prim.Native.String.{String}
use mathlib.Core.Path.{subst}
use text.Mathlib.TextEquality.{eq_iff}
use sproutboat.Supervisor.Pool.Valid.{IsOpen, Valid, modify_other, modify-none, IsOpen-close}

-- The five facts after the object `r`, which stands under `key`, is retired.
module _ (key : String) (r : ℕ) (p : SproutPool) (v : Valid p)
    (at_key : Dict.get key p.servers ≡ some r) where
  retire-held :
      (x : ℕ) (s : SproutServer)
      → IsOpen (retire key r p).objects x s
      → Bag.has s.port (retire key r p).used_ports ≡ true
  unfolding retire
  retire-held x s o =
      let (ne, old) = IsOpen-close r x p.objects s o in
      let (t, at, open_t, _) = v.listed key r at_key in
      rw at (
        rw (has-delete t.port s.port p.used_ports)
          (ground (arith, v.held x s old, v.apart r x t s (at, open_t) old)))

  retire-listed :
      (k : String) (x : ℕ)
      → Dict.get k (retire key r p).servers ≡ some x
      → (s : SproutServer) × ((retire key r p).objects x ≡ some s)
        × (s.closed ≡ false)
        × (s.key ≡ k)
  unfolding retire
  retire-listed k x h = elim (Bool-cases (string_eq.beq key k)) [
    | inl same ↦ cc (rw (get-delete key k p.servers, same) at h)
    | inr other ↦
        let h' = rw (get-delete key k p.servers, other) at h in
        let (s, at, open_s, s_key) = v.listed k x h' in
        let (t, at_r, open_t, t_key) = v.listed key r at_key in
        let ne : r ≢ x = λ e. ne_of_beq {A = String} other (cc) in
        (s, modify_other r x close_server p.objects ne ∙ at, open_s, s_key)
  ]

  retire-known :
      (x : ℕ) (s : SproutServer)
      → IsOpen (retire key r p).objects x s
      → Dict.get s.key (retire key r p).servers ≡ some x
  unfolding retire
  retire-known x s o =
      let (ne, old) = IsOpen-close r x p.objects s o in
      let known = v.known x s old in
      elim (Bool-cases (string_eq.beq key s.key)) [
        | inl same ↦ absurd (ne (cc ((eq_iff key s.key).0 same)))
        | inr other ↦ rw (get-delete key s.key p.servers, other) known
      ]

  retire-fresh : (x : ℕ) → p.next ≤ x → (retire key r p).objects x ≡ none
  unfolding retire
  retire-fresh x h = ground (arith, v.fresh x h)

pub retire-Valid :
    (key : String) (r : ℕ) (p : SproutPool)
    → Valid p
    → Dict.get key p.servers ≡ some r
    → Valid (retire key r p)
unfolding retire
retire-Valid key r p v h = record {
  held = retire-held key r p v h;
  apart = λ x y s t o u.
      v.apart x y s t (IsOpen-close r x p.objects s o).1 (IsOpen-close r y p.objects t u).1;
  listed = retire-listed key r p v h;
  known = retire-known key r p v h;
  fresh = retire-fresh key r p v h;
  unique = delete-Unique key p.servers v.unique;
}

-- A server that is closed already, whose key stands under nothing and whose port no open server has,
-- is retired once more.
pub retire-gone-Valid :
    (r : ℕ) (s : SproutServer) (p : SproutPool)
    → Valid p
    → p.objects r ≡ some s
    → Dict.get s.key p.servers ≡ none
    → ((x : ℕ) (t : SproutServer) → IsOpen p.objects x t → t.port ≢ s.port)
    → Valid (retire s.key r p)
unfolding retire port_of release_port
retire-gone-Valid r s p v at gone unshared = record {
  held = λ x t o.
      let old = (IsOpen-close r x p.objects t o).1 in
      rw at (
        rw (has-delete s.port t.port p.used_ports)
          (ground (arith, v.held x t old, unshared x t old)));
  apart = λ x y t u o q.
      v.apart x y t u (IsOpen-close r x p.objects t o).1 (IsOpen-close r y p.objects u q).1;
  listed = λ k x h. elim (Bool-cases (string_eq.beq s.key k)) [
    | inl same ↦ cc (rw (get-delete s.key k p.servers, same) at h)
    | inr other ↦
        let (t, at_x, open_t, t_key) =
          v.listed k x (rw (get-delete s.key k p.servers, other) at h) in
        let ne : r ≢ x = λ e. ne_of_beq {A = String} other (cc) in
        (t, modify_other r x close_server p.objects ne ∙ at_x, open_t, t_key)
  ];
  known = λ x t o.
      let known = v.known x t (IsOpen-close r x p.objects t o).1 in
      elim (Bool-cases (string_eq.beq s.key t.key)) [
        | inl same ↦ absurd (cc ((eq_iff s.key t.key).0 same, known, gone))
        | inr other ↦ rw (get-delete s.key t.key p.servers, other) known
      ];
  fresh = λ x h. modify-none r x close_server p.objects (v.fresh x h);
  unique = delete-Unique s.key p.servers v.unique;
}

-- A new server under a key that nothing stands under, on a port that is in use by no open server.
module _ (s : SproutServer) (p : SproutPool) (v : Valid p)
    (free_key : Dict.get s.key p.servers ≡ none) (taken : Bag.has s.port p.used_ports ≡ true)
    (unshared : (x : ℕ) (t : SproutServer) → IsOpen p.objects x t → t.port ≢ s.port)
    (open_s : s.closed ≡ false) where
  next_apart : (x : ℕ) (t : SproutServer) → IsOpen p.objects x t → x ≢ p.next
  next_apart x t o e = cc (v.fresh p.next (omega arith), o.0)

  -- What is open after the admission is the new server or was open before.
  IsOpen-place :
      (x : ℕ) (t : SproutServer)
      → IsOpen (place p.next s p.objects) x t
      → ((x ≡ p.next) × (t ≡ s)) ⊎ IsOpen p.objects x t
  unfolding place
  IsOpen-place x t o = ground arith

  place_other : (x : ℕ) → x ≢ p.next → place p.next s p.objects x ≡ p.objects x
  unfolding place
  place_other x h = ground arith

  place_self : place p.next s p.objects p.next ≡ some s
  unfolding place
  place_self = ground arith

  admit-listed :
      (k : String) (x : ℕ)
      → Dict.get k (Dict.insert s.key p.next p.servers) ≡ some x
      → (t : SproutServer) × (place p.next s p.objects x ≡ some t)
        × (t.closed ≡ false)
        × (t.key ≡ k)
  admit-listed k x h = elim (Bool-cases (string_eq.beq s.key k)) [
    | inl same ↦
        let e : p.next ≡ x = cc (rw (get-insert s.key k p.next p.servers, same) at h) in
        (
          s,
          subst (λ y. place p.next s p.objects y ≡ some s) e place_self,
          open_s,
          (eq_iff s.key k).0 same,
        )
    | inr other ↦
        let (t, at, open_t, key) =
          v.listed k x (rw (get-insert s.key k p.next p.servers, other) at h) in
        (t, place_other x (next_apart x t (at, open_t)) ∙ at, open_t, key)
  ]

  admit-known :
      (x : ℕ) (t : SproutServer)
      → IsOpen (place p.next s p.objects) x t
      → Dict.get t.key (Dict.insert s.key p.next p.servers) ≡ some x
  admit-known x t o = elim (IsOpen-place x t o) [
    | inl (e, f) ↦ rw (f, e) (get-insert_self s.key p.next p.servers)
    | inr old ↦ elim (Bool-cases (string_eq.beq s.key t.key)) [
      | inl same ↦ cc (v.known x t old, free_key, (eq_iff s.key t.key).0 same)
      | inr other ↦ rw (get-insert s.key t.key p.next p.servers, other) (v.known x t old)
    ]
  ]

  admit-apart :
      (x y : ℕ) (t u : SproutServer)
      → IsOpen (place p.next s p.objects) x t
      → IsOpen (place p.next s p.objects) y u
      → t.port ≡ u.port
      → x ≡ y
  admit-apart x y t u o o' e = elim (IsOpen-place x t o) [
    | inl (a, b) ↦ elim (IsOpen-place y u o') [
      | inl (c, d) ↦ a ∙ sym c
      | inr old ↦ absurd (unshared y u old (cc))
    ]
    | inr old ↦ elim (IsOpen-place y u o') [
      | inl (c, d) ↦ absurd (unshared x t old (cc))
      | inr old' ↦ v.apart x y t u old old' e
    ]
  ]

  pub admit_server-Valid : Valid (admit_server s p)
  unfolding admit_server
  admit_server-Valid = record {
    held =
        λ x t o. elim (IsOpen-place x t o) [ inl (e, f) ↦ rw f taken | inr old ↦ v.held x t old ];
    apart = admit-apart;
    listed = admit-listed;
    known = admit-known;
    fresh = λ x h. place_other x (λ e. absurd (omega arith)) ∙ v.fresh x (omega arith);
    unique = insert-Unique s.key p.next p.servers v.unique;
  }
