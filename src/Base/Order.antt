-- ===== src/Base/Order.antt =====
-- Sorting: JavaScript's stable `sort` and SQL's `ORDER BY`, where equal rows keep the table's order.
use Prim.Native.Nat.{ℕ, zero, suc}
use mathlib.Core.Path.{◌≡◌}
use mathlib.Core.Bool.{Bool, true, false, ◌&&◌, ◌||◌}
use mathlib.Core.List.{List, [], ◌∷◌}
use sproutboat.Base.Tests.{◌==◌, ltb, if◌then◌else◌, if_ind}
use sproutboat.Base.Lists.{All}
use sproutboat.Base.Codes.{Text}

-- `a <= b` of two texts, by code units.
unfoldable pub text_leb : Text → Text → Bool
text_leb [] t = true
text_leb (a ∷ s) [] = false
text_leb (a ∷ s) (b ∷ t) = ltb a b || (a == b && text_leb s t)

-- `Array.filter`.
unfoldable pub keep {ℓ} : {A : Type ℓ} → (A → Bool) → List A → List A
keep p [] = []
keep p (x ∷ xs) = let rest = keep p xs in if p x then x ∷ rest else rest

-- `slice(n)` and `slice(0, n)`.
unfoldable pub slice {ℓ} : {A : Type ℓ} → ℕ → List A → List A
slice zero xs = xs
slice (suc n) [] = []
slice (suc n) (x ∷ xs) = slice n xs

unfoldable pub first {ℓ} : {A : Type ℓ} → ℕ → List A → List A
first zero xs = []
first (suc n) [] = []
first (suc n) (x ∷ xs) = x ∷ first n xs

module _ {ℓ} {A : Type ℓ} (le : A → A → Bool) where
  unfoldable pub put : A → List A → List A
  put x [] = x ∷ []
  put x (y ∷ ys) = let rest = put x ys in if le x y then x ∷ y ∷ ys else y ∷ rest

  unfoldable pub sort : List A → List A
  unfolding put
  sort [] = []
  sort (x ∷ xs) = put x (sort xs)

  put-All {κ} : (P : A → Type κ) (x : A) (ys : List A) → P x → All P ys → All P (put x ys)
  unfolding put
  put-All P x [] h all = (h, tt)
  put-All P x (y ∷ ys) h (k, all) =
      if_ind (λ z. All P z) (le x y) (x ∷ y ∷ ys) (y ∷ put x ys) (λ _. (h, (k, all)))
        (λ _. (k, put-All P x ys h all))

  pub sort-All {κ} : (P : A → Type κ) (xs : List A) → All P xs → All P (sort xs)
  unfolding sort
  sort-All P [] all = tt
  sort-All P (x ∷ xs) (h, all) = put-All P x (sort xs) h (sort-All P xs all)

  abbrev pub Sorted : List A → Type 0
  Sorted [] = Unit
  Sorted (x ∷ xs) = All (λ y. le x y ≡ true) xs × Sorted xs

  module _ (total : (x y : A) → le x y ≡ false → le y x ≡ true)
      (trans : (x y z : A) → le x y ≡ true → le y z ≡ true → le x z ≡ true) where
    below :
        (x y : A) (zs : List A)
        → le x y ≡ true
        → All (λ z. le y z ≡ true) zs
        → All (λ z. le x z ≡ true) zs
    below x y [] h a = tt
    below x y (z ∷ zs) h (k, a) = (trans x y z h k, below x y zs h a)

    put-Sorted : (x : A) (ys : List A) → Sorted ys → Sorted (put x ys)
    unfolding put
    put-Sorted x [] s = (tt, tt)
    put-Sorted x (y ∷ ys) (a, s) =
        if_ind (λ z. Sorted z) (le x y) (x ∷ y ∷ ys) (y ∷ put x ys)
          (λ t. ((t, below x y ys t a), (a, s)))
          (λ ne. (put-All (λ z. le y z ≡ true) x ys (total x y ne) a, put-Sorted x ys s))

    pub sort-Sorted : (xs : List A) → Sorted (sort xs)
    unfolding sort
    sort-Sorted [] = tt
    sort-Sorted (x ∷ xs) = put-Sorted x (sort xs) (sort-Sorted xs)
