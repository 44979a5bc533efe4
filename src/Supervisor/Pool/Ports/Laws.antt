-- ===== src/Supervisor/Pool/Ports/Laws.antt =====
-- services/supervisor/src/run.ts, `#freePort`: what the walk over the range finds.
use sproutboat.Base.{
  ℕ, zero, suc, ◌+◌, ◌-◌, ◌%◌, ◌≤◌, ◌<◌, ◌≡◌, Bool, true, false, ◌⊎◌, none, some, arith, nat_eq,
  if◌then◌else◌, Bool-cases, inl, inr, leb, leb→le, refl,
}
use sproutboat.Base.Bag
use mathlib.Core.Path.{subst}
use native.Mathlib.Decide.{dec_lt}
use native.Mathlib.Nat.{mod-eq_of_lt}
use sproutboat.Supervisor.Pool.State.{SproutPool}
use sproutboat.Supervisor.Pool.Ports.{port_usable, free_port_from, free_port}

the_same : (i j : ℕ) → i ≤ j → ¬ (i < j) → i ≡ j
the_same i j h k = omega arith

-- Walking `j` from `start` in a circle of `n`, where `start + j` is `d` or one turn more.
at_offset :
    (start j d n lo q : ℕ)
    → (start + j ≡ d) ⊎ (start + j ≡ d + n)
    → d < n
    → lo + d ≡ q
    → lo + (start + j) % n ≡ q
at_offset start j d n lo q (inl e) h k = rw (e, mod-eq_of_lt {n = d} {m = n} h) k
at_offset start j d n lo q (inr e) h k = rw e (grind arith)

module _ (bindable : ℕ → Bool) (with_broker : Bool) (p : SproutPool) (start : ℕ) where
  abbrev span : ℕ
  span = p.port_hi + 1 - p.port_lo

  -- The port that round `i` of the walk looks at.
  abbrev nth_port : ℕ → ℕ
  nth_port i = p.port_lo + (start + i) % span

  abbrev Takes : ℕ → Type 0
  Takes port =
      (Bag.has port p.used_ports ≡ false)
      × (port_usable bindable with_broker port ≡ true)
      × (p.port_lo ≤ port)
      × (port ≤ p.port_hi)

  nth_port_bounds : (i : ℕ) → 0 < span → (p.port_lo ≤ nth_port i) × (nth_port i ≤ p.port_hi)
  nth_port_bounds i h = (omega arith, ground arith)

  free_port_from-Takes :
      (i left port : ℕ)
      → 0 < span
      → free_port_from bindable with_broker p start i left ≡ some port
      → Takes port
  unfolding free_port_from
  free_port_from-Takes i zero port h e = cc
  free_port_from-Takes i (suc left) port h e =
      ground (arith, free_port_from-Takes (i + 1) left port h, nth_port_bounds i h)

  -- If the walk finds nothing, then no round that it made could have.
  free_port_from-none :
      (i left j : ℕ)
      → free_port_from bindable with_broker p start i left ≡ none
      → i ≤ j
      → j < i + left
      → (Bag.has (nth_port j) p.used_ports ≡ true)
        ⊎ (port_usable bindable with_broker (nth_port j) ≡ false)
  unfolding free_port_from
  free_port_from-none i zero j e h k = absurd (omega arith)
  free_port_from-none i (suc left) j e h k = elim (dec_lt i j) [
    | yes later ↦ free_port_from-none (i + 1) left j (ground arith) (omega arith) (omega arith)
    | no same ↦
        subst
          (λ m.
            (Bag.has (nth_port m) p.used_ports ≡ true)
            ⊎ (port_usable bindable with_broker (nth_port m) ≡ false))
          (the_same i j h same) (ground arith)
  ]

  free_port_from-empty :
      (i left : ℕ) → left ≡ 0 → free_port_from bindable with_broker p start i left ≡ none
  unfolding free_port_from
  free_port_from-empty i zero h = refl
  free_port_from-empty i (suc left) h = absurd (omega arith)

  -- The round at which the walk comes to a port of the range.
  round_of : ℕ → ℕ
  round_of q =
      if leb start (q - p.port_lo) then q - p.port_lo - start else q - p.port_lo + span - start

  nth_port-round_of :
      (q : ℕ)
      → start < span
      → p.port_lo ≤ q
      → q ≤ p.port_hi
      → (nth_port (round_of q) ≡ q) × (round_of q < span)
  unfolding round_of
  nth_port-round_of q h lo hi = elim (Bool-cases (leb start (q - p.port_lo))) [
    | inl fits ↦ rw fits (
      at_offset start (q - p.port_lo - start) (q - p.port_lo) span p.port_lo q
          (inl (omega (arith, leb→le _ _ fits))) (omega arith) (omega arith),
      omega arith,
    )
    | inr wraps ↦ rw wraps (
      at_offset start (q - p.port_lo + span - start) (q - p.port_lo) span p.port_lo q
          (inr (omega arith)) (omega arith) (omega arith),
      ground arith,
    )
  ]

  -- A port that is handed out is in the range, unused, and passed the probe.
  pub free_port-Takes :
      (port : ℕ)
      → free_port bindable with_broker p start ≡ some port
      → (Bag.has port p.used_ports ≡ false)
        × (port_usable bindable with_broker port ≡ true)
        × (p.port_lo ≤ port)
        × (port ≤ p.port_hi)
  unfolding free_port
  free_port-Takes port e = elim (dec_lt 0 span) [
    | yes h ↦ free_port_from-Takes 0 span port h e
    | no h ↦ cc (e, free_port_from-empty 0 span (omega arith))
  ]

  -- The walk starts inside the range and finds nothing: then every port of the range is in use or
  -- fails the probe.
  pub free_port-none :
      (q : ℕ)
      → start < span
      → free_port bindable with_broker p start ≡ none
      → p.port_lo ≤ q
      → q ≤ p.port_hi
      → (Bag.has q p.used_ports ≡ true) ⊎ (port_usable bindable with_broker q ≡ false)
  unfolding free_port
  free_port-none q h e lo hi =
      let (at, inside) = nth_port-round_of q h lo hi in
      subst (λ m. (Bag.has m p.used_ports ≡ true) ⊎ (port_usable bindable with_broker m ≡ false)) at
        (free_port_from-none 0 span (round_of q) e (omega arith) (omega arith))
