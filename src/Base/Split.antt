-- ===== src/Base/Split.antt =====
-- JavaScript's `split` on one character, `trim`, `startsWith` and `includes`, on code units.
use Prim.Native.Nat.{ℕ, zero, suc}
use mathlib.Core.Path.{◌≡◌, refl}
use mathlib.Core.Logic.{◌≢◌, ◌↔◌, inl, inr}
use mathlib.Core.Bool.{Bool, true, false, ◌&&◌, ◌||◌}
use mathlib.Core.Option.{Option, none, some}
use mathlib.Core.List.{List, [], ◌∷◌, ◌++◌}
use native.Mathlib.Omega.{arith}
use sproutboat.Base.Tests.{◌==◌, leb, Bool-cases, if◌then◌else◌}
use sproutboat.Base.Lists.{All, any}
use sproutboat.Base.Codes.{Text, text_eq}

unfoldable pub onto_first : ℕ → List Text → List Text
onto_first x [] = (x ∷ []) ∷ []
onto_first x (w ∷ ws) = (x ∷ w) ∷ ws

unfoldable pub split : ℕ → Text → List Text
split c [] = [] ∷ []
split c (x ∷ s) = let rest = split c s in if x == c then [] ∷ rest else onto_first x rest

-- `.at(-1)`
unfoldable pub last {ℓ} : {A : Type ℓ} → List A → Option A
last [] = none
last (x ∷ []) = some x
last (x ∷ y ∷ xs) = last (y ∷ xs)

-- The white space that `trim` drops, line ends included.
unfoldable pub is_blank : ℕ → Bool
is_blank c =
    leb 9 c && leb c 13
    || any (λ b. c == b) (32 ∷ 160 ∷ 5760 ∷ 8232 ∷ 8233 ∷ 8239 ∷ 8287 ∷ 12288 ∷ 65279 ∷ [])
    || leb 8192 c && leb c 8202

unfoldable pub trim_start : Text → Text
trim_start [] = []
trim_start (c ∷ s) = let rest = trim_start s in if is_blank c then rest else c ∷ s

unfoldable pub trim_end : Text → Text
trim_end [] = []
trim_end (c ∷ s) = let rest = trim_end s in if is_blank c && text_eq rest [] then [] else c ∷ rest

unfoldable pub trim : Text → Text
unfolding trim_start trim_end
trim s = trim_end (trim_start s)

unfoldable pub starts_with : Text → Text → Bool
starts_with [] s = true
starts_with (p ∷ ps) [] = false
starts_with (p ∷ ps) (c ∷ s) = p == c && starts_with ps s

unfoldable pub drop : ℕ → Text → Text
drop zero s = s
drop (suc n) [] = []
drop (suc n) (c ∷ s) = drop n s

-- Without the separator a text is one part.
pub split-All : (c : ℕ) (s : Text) → All (λ x. x ≢ c) s → split c s ≡ s ∷ []
unfolding split onto_first
split-All c [] h = refl
split-All c (x ∷ s) h = ground (arith, split-All c s h.1)

-- A separator splits off what stands before it.
pub split-append : (c : ℕ) (s t : Text) → All (λ x. x ≢ c) s → split c (s ++ c ∷ t) ≡ s ∷ split c t
unfolding split onto_first
split-append c [] t h = ground arith
split-append c (x ∷ s) t h = ground (arith, split-append c s t h.1)

split_parts :
    (c : ℕ) (s t : Text)
    → All (λ x. x ≢ c) t
    → (w : Text) × (v : Text) × (ws : List Text) × (split c (s ++ c ∷ t) ≡ w ∷ v ∷ ws)
      × (last (v ∷ ws) ≡ some t)
unfolding split last onto_first
split_parts c [] t h = ([], t, [], ground (arith, split-All c t h), refl)
split_parts c (x ∷ s) t h =
    let (w, v, ws, e, l) = split_parts c s t h in
    rw e (elim (Bool-cases (x == c)) [
      | inl same ↦ ([], w, v ∷ ws, rw same refl, l)
      | inr other ↦ (x ∷ w, v, ws, rw other refl, l)
    ])

-- What the last separator splits off.
pub last-split : (c : ℕ) (s t : Text) → All (λ x. x ≢ c) t → last (split c (s ++ c ∷ t)) ≡ some t
unfolding last
last-split c s t h = let (w, v, ws, e, l) = split_parts c s t h in rw e l

pub starts_with_iff : (p s : Text) → (starts_with p s ≡ true) ↔ ((rest : Text) × (s ≡ p ++ rest))
unfolding starts_with
starts_with_iff [] s = (λ h. (s, refl), λ h. refl)
starts_with_iff (p ∷ ps) [] = (λ h. absurd (cc h), λ h. absurd (cc (h.1)))
starts_with_iff (p ∷ ps) (c ∷ s) = (
  λ h. let (rest, e) = (starts_with_iff ps s).0 (ground (arith, h)) in (rest, ground (arith, h, e)),
  λ h. let tail = (starts_with_iff ps s).1 (h.0, cc (h.1)) in ground (arith, h.1, tail),
)
