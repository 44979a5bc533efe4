-- ===== src/Supervisor/Pool/Valid.antt =====
-- services/supervisor/src/run.ts: the invariant of the pool's servers and ports, and writing to a
-- server.
pub mod Moves
pub mod Calls
pub mod Lifecycle
use sproutboat.Base.{
  ℕ, ◌+◌, ◌≤◌, ◌≡◌, refl, sym, ap, ◌∙◌, ◌≢◌, Bool, true, false, Option, none, some, List, ◌⊎◌, inl,
  inr, ◌==◌, ==_iff, ne_of_beq, nat_eq, string_eq, arith, Bool-cases, Option-cases, if◌then◌else◌,
}
use sproutboat.Base.Dict
use sproutboat.Base.Dict.{Dict, get-insert, get-delete}
use sproutboat.Base.Bag
use sproutboat.Base.Bag.{has-add, has-delete}
use sproutboat.Supervisor.Pool.State.{
  SproutServer, SproutPool, Heap, modify, place, close_server, port_of, release_port, retire,
}
use sproutboat.Supervisor.Pool.Endpoint.{admit_server}
use Prim.Native.String.{String}
use mathlib.Core.Path.{subst}
use text.Mathlib.TextEquality.{eq_iff}

abbrev pub IsOpen : Heap → ℕ → SproutServer → Type 0
IsOpen objects r s = (objects r ≡ some s) × (s.closed ≡ false)

-- `held`: an open server's port is in use. `apart`: two open servers have two ports. `listed`:
-- what stands under a key is an open server with that key. `known`: every open server stands under
-- its key, so it can be found, reaped and disposed of. `fresh`: references are handed out in turn.
-- `unique`: no key stands twice in the map.
pub record IsValid (objects : Heap) (next : ℕ) (servers : Dict String ℕ) (used : List ℕ)
    : Type 0 where
  pub held : (r : ℕ) (s : SproutServer) → IsOpen objects r s → Bag.has s.port used ≡ true
  pub apart :
      (r x : ℕ) (s t : SproutServer)
      → IsOpen objects r s
      → IsOpen objects x t
      → s.port ≡ t.port
      → r ≡ x
  pub listed :
      (k : String) (r : ℕ)
      → Dict.get k servers ≡ some r
      → (s : SproutServer) × (objects r ≡ some s) × (s.closed ≡ false) × (s.key ≡ k)
  pub known : (r : ℕ) (s : SproutServer) → IsOpen objects r s → Dict.get s.key servers ≡ some r
  pub fresh : (r : ℕ) → next ≤ r → objects r ≡ none
  pub unique : Dict.Unique servers

abbrev pub Valid : SproutPool → Type 0
Valid p = IsValid p.objects p.next p.servers p.used_ports

pub modify_other :
    (r x : ℕ) (f : SproutServer → SproutServer) (objects : Heap)
    → r ≢ x
    → modify r f objects x ≡ objects x
unfolding modify
modify_other r x f objects h = ground arith

pub modify_self :
    (r : ℕ) (f : SproutServer → SproutServer) (objects : Heap) {s : SproutServer}
    → objects r ≡ some s
    → modify r f objects r ≡ some (f s)
unfolding modify
modify_self r f objects h = ground arith

pub modify-none :
    (r x : ℕ) (f : SproutServer → SproutServer) (objects : Heap)
    → objects x ≡ none
    → modify r f objects x ≡ none
unfolding modify
modify-none r x f objects h = ground arith

pub IsOpen-close :
    (r x : ℕ) (objects : Heap) (s : SproutServer)
    → IsOpen (modify r close_server objects) x s
    → (r ≢ x) × IsOpen objects x s
unfolding modify close_server
IsOpen-close r x objects s h = elim (Option-cases (objects x)) [
  | inl e ↦ ground arith
  | inr (t, e) ↦ ground arith
]

-- A write that leaves key, port and `closed` alone.
module _ (r : ℕ) (f : SproutServer → SproutServer) (objects : Heap)
    (same : (s : SproutServer)
      → ((f s).key ≡ s.key) × ((f s).port ≡ s.port) × ((f s).closed ≡ s.closed)) where
  -- What is open after the write was open before, with the same key and port.
  IsOpen-modify :
      (x : ℕ) (s : SproutServer)
      → IsOpen (modify r f objects) x s
      → (t : SproutServer) × IsOpen objects x t × (t.key ≡ s.key) × (t.port ≡ s.port)
  unfolding modify
  IsOpen-modify x s h = elim (Option-cases (objects x)) [
    | inl e ↦ ground arith
    | inr (t, e) ↦ (t, (e, ground (arith, same t)), ground (arith, same t), ground (arith, same t))
  ]

  pub modify-IsValid :
      (next : ℕ) (servers : Dict String ℕ) (used : List ℕ)
      → IsValid objects next servers used
      → IsValid (modify r f objects) next servers used
  modify-IsValid next servers used v = record {
    held = λ x s o. let (t, old, _, port) = IsOpen-modify x s o in rw (← port) (v.held x t old);
    apart = λ x y s t o u e.
        let (s', os, _, ps) = IsOpen-modify x s o in
        let (t', ot, _, pt) = IsOpen-modify y t u in v.apart x y s' t' os ot (ps ∙ e ∙ sym pt);
    listed = λ k x h.
        let (s, at, open_s, key) = v.listed k x h in
        elim (Bool-cases (r == x)) [
          | inl here ↦ (
            f s,
            subst (λ y. modify r f objects y ≡ some (f s)) ((==_iff r x).0 here)
                (modify_self r f objects (rw ((==_iff r x).0 here) at)),
            (same s).2 ∙ open_s,
            (same s).0 ∙ key,
          )
          | inr away ↦
              (s, modify_other r x f objects (ne_of_beq ⦃e = nat_eq⦄ away) ∙ at, open_s, key)
        ];
    known = λ x s o. let (t, old, key, _) = IsOpen-modify x s o in rw (← key) (v.known x t old);
    fresh = λ x h. modify-none r x f objects (v.fresh x h);
    unique = v.unique;
  }
