-- ===== src/Base/Ranking.antt =====
-- The rows of a table in the order of a query, and the first of them.
use sproutboat.Base.Tests.{if◌then◌else◌, if_ind, Bool-cases}
use sproutboat.Base.Equality.{Eq}
use sproutboat.Base.Lists.{length, All}
use sproutboat.Base.Dict
use sproutboat.Base.Dict.{Dict, get, Unique, filter}
use sproutboat.Base.Order.{put, sort, first, slice, Sorted}
use Prim.Native.Nat.{ℕ, zero, suc, ◌≤◌}
use mathlib.Core.Path.{◌≡◌, refl, sym, ap, ◌∙◌}
use mathlib.Core.Logic.{◌⊎◌, inl, inr}
use mathlib.Core.Bool.{Bool, true, false}
use mathlib.Core.Option.{none, some}
use mathlib.Core.List.{[], ◌∷◌}
use native.Mathlib.Omega.{arith}

module _ {ℓ κ} {K : Type ℓ} {V : Type κ} ⦃e : Eq K⦄ (le : K × V → K × V → Bool) where
  get-put :
      (j k : K) (w : V) (m : Dict K V)
      → get j m ≡ none
      → get k (put le (j, w) m) ≡ (if e.beq j k then some w else get k m)
  unfolding get put
  get-put j k w [] new = refl
  get-put j k w ((i, v) ∷ m) new =
      ground (arith, e.beq_iff j k, e.beq_iff i k, e.beq_iff i j, get-put j k w m)

  put-Unique : (j : K) (w : V) (m : Dict K V) → get j m ≡ none → Unique m → Unique (put le (j, w) m)
  unfolding get put
  put-Unique j w [] new u = (refl, tt)
  put-Unique j w ((i, v) ∷ m) new (fresh, u) =
      if_ind (λ z. Unique z) (le (j, w) (i, v)) ((j, w) ∷ (i, v) ∷ m) ((i, v) ∷ put le (j, w) m)
        (λ _. (new, (fresh, u)))
        (λ _. (
          ground (arith, get-put j i w m, fresh, new, e.beq_iff i j, e.beq_iff j i),
          put-Unique j w m (ground (arith, new)) u,
        ))

  pub get-sort : (k : K) (m : Dict K V) → Unique m → get k (sort le m) ≡ get k m
  unfolding get sort
  get-sort k [] u = refl
  get-sort k ((j, w) ∷ m) (new, u) =
      get-put j k w (sort le m) (get-sort j m u ∙ new)
      ∙ ap (λ o. if e.beq j k then some w else o) (get-sort k m u)

  pub sort-Unique : (m : Dict K V) → Unique m → Unique (sort le m)
  unfolding sort
  sort-Unique [] u = tt
  sort-Unique ((j, w) ∷ m) (new, u) =
      put-Unique j w (sort le m) (get-sort j m u ∙ new) (sort-Unique m u)

  filter-All {ι} :
      (P : K × V → Type ι) (p : K → V → Bool) (m : Dict K V) → All P m → All P (filter p m)
  unfolding filter
  filter-All P p [] a = tt
  filter-All P p ((j, w) ∷ m) (h, a) =
      if_ind (λ z. All P z) (p j w) ((j, w) ∷ filter p m) (filter p m)
        (λ _. (h, filter-All P p m a)) (λ _. filter-All P p m a)

  pub filter-Sorted : (p : K → V → Bool) (m : Dict K V) → Sorted le m → Sorted le (filter p m)
  unfolding filter
  filter-Sorted p [] s = tt
  filter-Sorted p ((j, w) ∷ m) (a, s) =
      if_ind (λ z. Sorted le z) (p j w) ((j, w) ∷ filter p m) (filter p m)
        (λ _. (filter-All (λ y. le (j, w) y ≡ true) p m a, filter-Sorted p m s))
        (λ _. filter-Sorted p m s)

module _ {ℓ κ} {K : Type ℓ} {V : Type κ} ⦃e : Eq K⦄ where
  All-get {ι} :
      (P : K × V → Type ι) (k : K) (v : V) (m : Dict K V) → All P m → get k m ≡ some v → P (k, v)
  unfolding get
  All-get P k v [] a at = absurd (cc at)
  All-get P k v ((j, w) ∷ m) (h, a) at = elim (Dict.get_cases j k w v m at) [
    | inl (same, is) ↦ rw (sym same, sym is) h
    | inr old ↦ All-get P k v m a old
  ]

  -- An entry stands among the first rows or among the others.
  pub get-slice :
      (k : K) (v : V) (n : ℕ) (m : Dict K V)
      → get k m ≡ some v
      → (get k (first n m) ≡ some v) ⊎ ((get k (first n m) ≡ none) × (get k (slice n m) ≡ some v))
  unfolding get first slice
  get-slice k v zero m at = inr (refl, at)
  get-slice k v (suc n) [] at = absurd (cc at)
  get-slice k v (suc n) ((j, w) ∷ m) at = elim (Bool-cases (e.beq j k)) [
    | inl same ↦ inl (ground (arith, same, at))
    | inr ne ↦
        let old : get k m ≡ some v = ground (arith, ne, at) in
        elim (get-slice k v n m old) [
          | inl early ↦ inl (rw ne early)
          | inr (late, rest) ↦ inr (rw ne late, rest)
        ]
  ]

  pub slice-get :
      (k : K) (v : V) (n : ℕ) (m : Dict K V)
      → Unique m
      → get k (slice n m) ≡ some v
      → (get k m ≡ some v) × (get k (first n m) ≡ none) × (length (first n m) ≡ n)
  unfolding get first slice
  slice-get k v zero m u at = (at, refl, refl)
  slice-get k v (suc n) [] u at = absurd (cc at)
  slice-get k v (suc n) ((j, w) ∷ m) (new, u) at =
      let (here, apart, full) = slice-get k v n m u at in
      let ne : e.beq j k ≡ false = ground (arith, new, here, e.beq_iff j k) in
      (rw ne here, rw ne apart, ap suc full)

  pub get-slice-none : (k : K) (n : ℕ) (m : Dict K V) → get k m ≡ none → get k (slice n m) ≡ none
  unfolding get slice
  get-slice-none k zero m h = h
  get-slice-none k (suc n) [] h = refl
  get-slice-none k (suc n) ((j, w) ∷ m) h = get-slice-none k n m (ground (arith, h))

  pub length-first : (n : ℕ) (m : Dict K V) → length (first n m) ≤ n
  unfolding first
  length-first zero m = omega arith
  length-first (suc n) [] = omega arith
  length-first (suc n) (row ∷ m) = omega (arith, length-first n m)

  slice-All {ι} : (P : K × V → Type ι) (n : ℕ) (m : Dict K V) → All P m → All P (slice n m)
  unfolding slice
  slice-All P zero m a = a
  slice-All P (suc n) [] a = tt
  slice-All P (suc n) (row ∷ m) (_, a) = slice-All P n m a

  pub first-slice-Sorted :
      (le : K × V → K × V → Bool) (n : ℕ) (m : Dict K V) (j k : K) (v w : V)
      → Sorted le m
      → get j (first n m) ≡ some v
      → get k (slice n m) ≡ some w
      → le (j, v) (k, w) ≡ true
  unfolding get first slice
  first-slice-Sorted le zero m j k v w s hj hk = absurd (cc hj)
  first-slice-Sorted le (suc n) [] j k v w s hj hk = absurd (cc hj)
  first-slice-Sorted le (suc n) ((i, x) ∷ m) j k v w (a, s) hj hk =
      elim (Dict.get_cases i j x v (first n m) hj) [
        | inl (same, is) ↦
            rw (sym same, sym is)
              (All-get (λ y. le (i, x) y ≡ true) k w (slice n m)
                (slice-All (λ y. le (i, x) y ≡ true) n m a) hk)
        | inr old ↦ first-slice-Sorted le n m j k v w s old hk
      ]
