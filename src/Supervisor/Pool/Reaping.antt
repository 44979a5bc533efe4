-- ===== src/Supervisor/Pool/Reaping.antt =====
-- services/supervisor/src/run.ts, `evictIdle`: which servers the traffic-based reaper takes.
use sproutboat.Base.{
  ℕ, ◌+◌, ◌<◌, ◌≡◌, ◌↔◌, ◌⊎◌, ◌≢◌, refl, ap, ◌∙◌, Bool, true, false, Option, none, some, List, [],
  ◌∷◌, inl, inr, string_eq, arith, Bool-cases, Option-cases, if◌then◌else◌, ne_of_beq,
}
use sproutboat.Base.Dict
use sproutboat.Base.Dict.{get-delete, get-delete_self, Holds-get}
use sproutboat.Supervisor.Pool.State.{SproutServer, SproutPool, close_server, retire}
use sproutboat.Supervisor.Pool.Lifecycle.{is_idle, evict_entries, evict_idle}
use sproutboat.Supervisor.Pool.Valid.{Valid, modify_other}
use sproutboat.Supervisor.Pool.Valid.Lifecycle.{
  Running, Running-self, retire-Running, leave-Running,
}
use mathlib.Core.Path.{subst}
use text.Mathlib.TextEquality.{eq_iff}
use Prim.Native.String.{String}

-- What the reaper leaves under a key, by what stood there.
abbrev pub spared : ℕ → SproutPool → String → Option ℕ → Option ℕ
spared clock p k none = none
spared clock p k (some r) = if is_idle clock k r p then none else some r

-- The same for an entry that the loop has still to see, with what stands there otherwise.
abbrev spared_or : ℕ → SproutPool → String → Option ℕ → Option ℕ → Option ℕ
spared_or clock p k none now = now
spared_or clock p k (some r) now = spared clock p k (some r)

spared_or_self :
    (clock : ℕ) (p : SproutPool) (k : String) (o : Option ℕ)
    → spared_or clock p k o o ≡ spared clock p k o
spared_or_self clock p k none = refl
spared_or_self clock p k (some r) = refl

-- Retiring one server leaves the judgement of another.
is_idle-retire :
    (clock : ℕ) (k key : String) (x r : ℕ) (p : SproutPool)
    → r ≢ x
    → is_idle clock k x (retire key r p) ≡ is_idle clock k x p
unfolding is_idle retire
is_idle-retire clock k key x r p ne = rw (modify_other r x close_server p.objects ne)

-- Two keys have two servers.
keys_apart :
    (k key : String) (x r : ℕ) (p : SproutPool)
    → Valid p
    → Dict.get k p.servers ≡ some x
    → Dict.get key p.servers ≡ some r
    → string_eq.beq key k ≡ false
    → r ≢ x
keys_apart k key x r p v at_k at_key ne e =
    let (s, at, _, s_key) = v.listed k x at_k in
    let (t, at', _, t_key) = v.listed key r at_key in ne_of_beq {A = String} ne (cc)

spared_or-retire :
    (clock : ℕ) (k key : String) (o : Option ℕ) (r : ℕ) (p : SproutPool)
    → Valid p
    → ((x : ℕ) → o ≡ some x → Dict.get k p.servers ≡ some x)
    → Dict.get key p.servers ≡ some r
    → string_eq.beq key k ≡ false
    → spared_or clock (retire key r p) k o (Dict.get k (retire key r p).servers)
      ≡ spared_or clock p k o (Dict.get k p.servers)
unfolding retire
spared_or-retire clock k key none r p v h at_key ne = rw (get-delete key k p.servers, ne)
spared_or-retire clock k key (some x) r p v h at_key ne =
    ap (λ (b : Bool). if b then none else some x)
      (is_idle-retire clock k key x r p (keys_apart k key x r p v (h x refl) at_key ne))

abbrev Swept : ℕ → String → List (String × ℕ) → ℕ → SproutPool → Type 0
Swept clock k es n p =
    Dict.get k (evict_entries clock es n p).0.servers
    ≡ spared_or clock p k (Dict.get k es) (Dict.get k p.servers)

module _ (clock : ℕ) (key : String) (r : ℕ) (es : List (String × ℕ)) (p : SproutPool)
    (run : Running ((key, r) ∷ es) p) where
  -- The turn of the loop at its own key.
  evict_here :
      (n : ℕ)
      → ((m : ℕ) → Swept clock key es m p)
      → ((m : ℕ) → Swept clock key es m (retire key r p))
      → Dict.get key (evict_entries clock ((key, r) ∷ es) n p).0.servers
        ≡ spared clock p key (some r)
  unfolding evict_entries retire
  evict_here n kept gone = elim (Bool-cases (is_idle clock key r p)) [
    | inl idle ↦
        rw (idle, evict_entries) (gone (n + 1) ∙ rw run.2.0 (get-delete_self key p.servers))
    | inr busy ↦ rw (busy, evict_entries) (kept n ∙ rw run.2.0 run.1.0)
  ]

  -- The turn at another key.
  evict_elsewhere :
      (k : String) (n : ℕ)
      → string_eq.beq key k ≡ false
      → ((m : ℕ) → Swept clock k es m p)
      → ((m : ℕ) → Swept clock k es m (retire key r p))
      → Dict.get k (evict_entries clock ((key, r) ∷ es) n p).0.servers
        ≡ spared_or clock p k (Dict.get k es) (Dict.get k p.servers)
  unfolding evict_entries
  evict_elsewhere k n ne kept gone = elim (Bool-cases (is_idle clock key r p)) [
    | inl idle ↦
        rw (idle, evict_entries)
          (gone (n + 1)
            ∙ spared_or-retire clock k key (Dict.get k es) r p run.0
                (λ x at. Holds-get k x p.servers es run.1.1 at) run.1.0 ne)
    | inr busy ↦ rw (busy, evict_entries) (kept n)
  ]

evict_entries-get :
    (clock : ℕ) (k : String) (es : List (String × ℕ)) (n : ℕ) (p : SproutPool)
    → Running es p
    → Swept clock k es n p
unfolding evict_entries Dict.get
evict_entries-get clock k [] n p run = refl
evict_entries-get clock k ((key, r) ∷ es) n p run =
    let kept =
      λ (j : String) (m : ℕ). evict_entries-get clock j es m p (leave-Running key r es p run) in
    let gone = λ (j : String) (m : ℕ).
      evict_entries-get clock j es m (retire key r p) (retire-Running key r es p run) in
    elim (Bool-cases (string_eq.beq key k)) [
      | inl same ↦ rw same (
          subst
            (λ j.
              Dict.get j (evict_entries clock ((key, r) ∷ es) n p).0.servers
              ≡ spared clock p j (some r))
            ((eq_iff key k).0 same) (evict_here clock key r es p run n (kept key) (gone key)))
      | inr other ↦ rw other (evict_elsewhere clock key r es p run k n other (kept k) (gone k))
    ]

evict_idle-get :
    (clock : ℕ) (k : String) (p : SproutPool)
    → Valid p
    → Dict.get k (evict_idle clock p).0.servers ≡ spared clock p k (Dict.get k p.servers)
unfolding evict_idle
evict_idle-get clock k p v =
    evict_entries-get clock k p.servers 0 p (Running-self p v)
    ∙ spared_or_self clock p k (Dict.get k p.servers)

spared_iff :
    (clock : ℕ) (k : String) (p : SproutPool) (r x : ℕ) (s : SproutServer)
    → p.objects x ≡ some s
    → (spared clock p k (some x) ≡ some r)
      ↔ ((x ≡ r) × ((Dict.has k p.timed ≡ true) ⊎ (clock < p.idle_ms + s.last_used_at)))
unfolding is_idle
spared_iff clock k p r x s at = (λ h. (ground arith, ground arith), λ h. ground arith)

some_eq : {x r : ℕ} → some x ≡ some r → x ≡ r
some_eq h = cc h

one_server :
    (x r : ℕ) (s t : SproutServer) (p : SproutPool) (k : String) (clock : ℕ)
    → x ≡ r
    → p.objects x ≡ some s
    → p.objects r ≡ some t
    → (Dict.has k p.timed ≡ true) ⊎ (clock < p.idle_ms + t.last_used_at)
    → (Dict.has k p.timed ≡ true) ⊎ (clock < p.idle_ms + s.last_used_at)
one_server x r s t p k clock e at at' why =
    let same : t ≡ s = cc (at, at', e) in
    subst (λ u. (Dict.has k p.timed ≡ true) ⊎ (clock < p.idle_ms + u.last_used_at)) same why

-- In a valid pool `evictIdle` keeps a server under its key exactly when the key has timed work or
-- the server's last use is less than the idle window ago.
pub evict_idle_iff :
    (clock : ℕ) (k : String) (r : ℕ) (p : SproutPool)
    → Valid p
    → (Dict.get k (evict_idle clock p).0.servers ≡ some r) ↔ (
        (s : SproutServer) × (Dict.get k p.servers ≡ some r)
        × (p.objects r ≡ some s)
        × ((Dict.has k p.timed ≡ true) ⊎ (clock < p.idle_ms + s.last_used_at)))
evict_idle_iff clock k r p v = elim (Option-cases (Dict.get k p.servers)) [
  | inl e ↦ rw (evict_idle-get clock k p v, e) (λ h. absurd (cc h), λ h. absurd (cc (h.1)))
  | inr (x, e) ↦
      let (s, at, _, _) = v.listed k x e in
      let (to, from) = spared_iff clock k p r x s at in
      rw (evict_idle-get clock k p v, e)
        (
          λ h. (s, ap some (to h).0, rw (← (to h).0) at, (to h).1),
          λ (t, same, at', why).
              from (some_eq same, one_server x r s t p k clock (some_eq same) at at' why),
        )
]
