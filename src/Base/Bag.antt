-- ===== src/Base/Bag.antt =====
-- JavaScript's `Set` of numbers or texts: a list that holds each element once.
use sproutboat.Base.Tests.{if◌then◌else◌}
use sproutboat.Base.Equality.{Eq}
use sproutboat.Base.Dict
use sproutboat.Base.Dict.{Dict}
use sproutboat.Base.Order.{put, sort}
use mathlib.Core.Path.{◌≡◌, refl}
use mathlib.Core.Bool.{Bool, true, false, ◌&&◌}
use mathlib.Core.List.{List, [], ◌∷◌, ◌++◌}
use native.Mathlib.Omega.{arith}

module _ {ℓ} {A : Type ℓ} ⦃e : Eq A⦄ where
  unfoldable pub has : A → List A → Bool
  has a [] = false
  has a (x ∷ xs) = if e.beq x a then true else has a xs

  unfoldable pub add : A → List A → List A
  unfolding has
  add a xs = if has a xs then xs else xs ++ a ∷ []

  unfoldable pub delete : A → List A → List A
  delete a [] = []
  delete a (x ∷ xs) = let rest = delete a xs in if e.beq x a then rest else x ∷ rest

  has-append :
      (a b : A) (xs : List A) → has b (xs ++ a ∷ []) ≡ (if e.beq a b then true else has b xs)
  unfolding has
  has-append a b [] = refl
  has-append a b (x ∷ xs) = ground (arith, has-append a b xs)

  pub has-add : (a b : A) (xs : List A) → has b (add a xs) ≡ (if e.beq a b then true else has b xs)
  unfolding add
  has-add a b xs = ground (arith, has-append a b xs, e.beq_iff a b)

  pub has-delete :
      (a b : A) (xs : List A) → has b (delete a xs) ≡ (if e.beq a b then false else has b xs)
  unfolding has delete
  has-delete a b [] = ground arith
  has-delete a b (x ∷ xs) =
      ground (arith, e.beq_iff a b, e.beq_iff x a, e.beq_iff x b, has-delete a b xs)

  has-put :
      (le : A → A → Bool) (a b : A) (xs : List A)
      → has b (put le a xs) ≡ (if e.beq a b then true else has b xs)
  unfolding has put
  has-put le a b [] = refl
  has-put le a b (x ∷ xs) = ground (arith, has-put le a b xs)

  pub has-sort : (le : A → A → Bool) (b : A) (xs : List A) → has b (sort le xs) ≡ has b xs
  unfolding has sort
  has-sort le b [] = refl
  has-sort le b (x ∷ xs) = ground (arith, has-put le x b (sort le xs), has-sort le b xs)

-- The rows of a query, each once, ahead of the rows of another: `UNION`.
module _ {ℓ κ ι} {K : Type ℓ} {V : Type κ} {R : Type ι} ⦃e : Eq R⦄ where
  unfoldable pub collect : (K → V → Bool) → (K → V → R) → Dict K V → List R → List R
  unfolding add
  collect test row [] rest = rest
  collect test row ((k, v) ∷ m) rest =
      let rows = collect test row m rest in if test k v then add (row k v) rows else rows

module _ {ℓ κ ι} {K : Type ℓ} {V : Type κ} {R : Type ι} ⦃key : Eq K⦄ ⦃e : Eq R⦄ where
  pub has-collect :
      (test : K → V → Bool) (row : K → V → R) (r : R) (m : Dict K V) (rest : List R)
      → has r (collect test row m rest)
        ≡ (if Dict.exists (λ k v. test k v && e.beq (row k v) r) m then true else has r rest)
  unfolding collect Dict.exists
  has-collect test row r [] rest = refl
  has-collect test row r ((k, v) ∷ m) rest =
      ground (arith, has-add (row k v) r (collect test row m rest), has-collect test row r m rest)
