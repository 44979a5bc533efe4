-- ===== src/Base/Dict.antt =====
-- JavaScript's `Map`: an association list in insertion order. `set` on a key that is there keeps
-- its place, on a new key appends it; `delete` removes it.
use sproutboat.Base.Tests.{if◌then◌else◌, if_ind, Bool-cases, Option-cases}
use sproutboat.Base.Equality.{Eq}
use sproutboat.Base.Lists.{length, All}
use Prim.Native.Nat.{◌+◌, ◌≤◌}
use mathlib.Core.Path.{◌≡◌, refl, sym, ap, subst, ◌∙◌}
use mathlib.Core.Bool.{Bool, true, false}
use mathlib.Core.Option
use mathlib.Core.Option.{Option, none, some}
use mathlib.Core.List.{List, [], ◌∷◌}
use mathlib.Core.Logic.{◌⊎◌, inl, inr}
use native.Mathlib.Omega.{arith}

abbrev pub Dict {ℓ κ} : Type ℓ → Type κ → Type (ℓ ⊔ κ)
Dict K V = List (K × V)

-- A value that passes a test.
abbrev pub passing {κ} : {V : Type κ} → (V → Bool) → Option V → Option V
passing p none = none
passing p (some v) = if p v then some v else none

module _ {ℓ κ} {K : Type ℓ} {V : Type κ} ⦃e : Eq K⦄ where
  unfoldable pub get : K → Dict K V → Option V
  get k [] = none
  get k ((j, v) ∷ m) = if e.beq j k then some v else get k m

  unfoldable pub has : K → Dict K V → Bool
  has k m = elim (get k m) [ none ↦ false | some _ ↦ true ]

  unfoldable pub insert : K → V → Dict K V → Dict K V
  insert k v [] = (k, v) ∷ []
  insert k v ((j, w) ∷ m) = if e.beq j k then (j, v) ∷ m else (j, w) ∷ insert k v m

  unfoldable pub delete : K → Dict K V → Dict K V
  delete k [] = []
  delete k ((j, w) ∷ m) = let rest = delete k m in if e.beq j k then rest else (j, w) ∷ rest

  pub get-insert :
      (k j : K) (v : V) (m : Dict K V)
      → get j (insert k v m) ≡ (if e.beq k j then some v else get j m)
  unfolding get insert
  get-insert k j v [] = refl
  get-insert k j v ((i, w) ∷ m) =
      ground (arith, e.beq_iff k j, e.beq_iff i k, e.beq_iff i j, get-insert k j v m)

  pub get-delete :
      (k j : K) (m : Dict K V) → get j (delete k m) ≡ (if e.beq k j then none else get j m)
  unfolding get delete
  get-delete k j [] = ground arith
  get-delete k j ((i, w) ∷ m) =
      ground (arith, e.beq_iff k j, e.beq_iff i k, e.beq_iff i j, get-delete k j m)

  pub get-insert_self : (k : K) (v : V) (m : Dict K V) → get k (insert k v m) ≡ some v
  get-insert_self k v m = ground (arith, get-insert k k v m, e.beq_iff k k)

  pub get-delete_self : (k : K) (m : Dict K V) → get k (delete k m) ≡ none
  get-delete_self k m = ground (arith, get-delete k k m, e.beq_iff k k)

  pub get-has-false : (k : K) (m : Dict K V) → has k m ≡ false → get k m ≡ none
  unfolding has
  get-has-false k m h = ground arith

  pub get-has-true : (k : K) (m : Dict K V) → has k m ≡ true → (v : V) × (get k m ≡ some v)
  unfolding has
  get-has-true k m h = ground arith

  pub length-insert : (k : K) (v : V) (m : Dict K V) → length (insert k v m) ≤ length m + 1
  unfolding insert
  length-insert k v [] = omega arith
  length-insert k v ((i, w) ∷ m) = ground (arith, length-insert k v m)

  -- No key stands twice, as in every `Map`.
  abbrev pub Unique : Dict K V → Type κ
  Unique [] = Unit
  Unique ((k, v) ∷ m) = (get k m ≡ none) × Unique m

  pub insert-Unique : (k : K) (v : V) (m : Dict K V) → Unique m → Unique (insert k v m)
  unfolding insert get
  insert-Unique k v [] u = (refl, tt)
  insert-Unique k v ((j, w) ∷ m) u =
      ground (arith, insert-Unique k v m u.1, get-insert k j v m, e.beq_iff k j, e.beq_iff j k)

  pub delete-Unique : (k : K) (m : Dict K V) → Unique m → Unique (delete k m)
  unfolding delete
  delete-Unique k [] u = tt
  delete-Unique k ((j, w) ∷ m) u =
      ground (arith, delete-Unique k m u.1, get-delete k j m, e.beq_iff k j, e.beq_iff j k)

  -- Every entry of a list is what the map holds.
  abbrev pub Holds : Dict K V → List (K × V) → Type κ
  Holds m = All (λ entry. get entry.0 m ≡ some entry.1)

  not_here :
      (k j : K) (w : V) (es : Dict K V)
      → get k ((j, w) ∷ es) ≡ none
      → e.beq k j ≡ false
      → get k es ≡ none
  unfolding get
  not_here k j w es h ne = ground (arith, e.beq_iff j k, e.beq_iff k j)

  -- What holds of all other keys' lookups survives a change at a key that the list does not name.
  pub Holds-off :
      (k : K) (m n : Dict K V) (es : List (K × V))
      → ((j : K) → e.beq k j ≡ false → get j n ≡ get j m)
      → get k es ≡ none
      → Holds m es
      → Holds n es
  unfolding get
  Holds-off k m n [] same absent h = tt
  Holds-off k m n ((j, w) ∷ es) same absent h = elim (Bool-cases (e.beq k j)) [
    | inl eq ↦ cc (absent, (e.beq_iff j k).1 (sym ((e.beq_iff k j).0 eq)))
    | inr ne ↦ (same j ne ∙ h.0, Holds-off k m n es same (not_here k j w es absent ne) h.1)
  ]

  pub Holds-get :
      (k : K) (v : V) (m : Dict K V) (es : List (K × V))
      → Holds m es
      → get k es ≡ some v
      → get k m ≡ some v
  unfolding get
  Holds-get k v m [] h at = cc
  Holds-get k v m ((j, w) ∷ es) h at = ground (arith, e.beq_iff j k, Holds-get k v m es h.1)

  pub Holds-delete :
      (k : K) (m : Dict K V) (es : List (K × V))
      → get k es ≡ none
      → Holds m es
      → Holds (delete k m) es
  Holds-delete k m es = Holds-off k m (delete k m) es (λ j ne. rw (get-delete k j m, ne))

  pub Holds-self : (m : Dict K V) → Unique m → Holds m m
  unfolding get
  Holds-self [] u = tt
  Holds-self ((k, v) ∷ m) u = (
    ground (arith, e.beq_iff k k),
    Holds-off k m ((k, v) ∷ m) m (λ j ne. rw ne) u.0 (Holds-self m u.1),
  )

  pub delete_absent : (k : K) (m : Dict K V) → get k m ≡ none → delete k m ≡ m
  unfolding get delete
  delete_absent k [] h = refl
  delete_absent k ((j, w) ∷ m) h = ground (arith, delete_absent k m)

  pub length-delete : (k : K) (m : Dict K V) → length (delete k m) ≤ length m
  unfolding delete
  length-delete k [] = omega arith
  length-delete k ((j, w) ∷ m) = ground (arith, length-delete k m)

  -- The entries that pass a test, as after a SQL `DELETE`.
  unfoldable pub filter : (K → V → Bool) → Dict K V → Dict K V
  filter p [] = []
  filter p ((j, w) ∷ m) = let rest = filter p m in if p j w then (j, w) ∷ rest else rest

  filter-none :
      (k : K) (p : K → V → Bool) (m : Dict K V) → get k m ≡ none → get k (filter p m) ≡ none
  unfolding get filter
  filter-none k p [] h = refl
  filter-none k p ((j, w) ∷ m) h = ground (arith, filter-none k p m)

  pub get-filter :
      (k : K) (p : K → V → Bool) (m : Dict K V)
      → Unique m
      → get k (filter p m) ≡ passing (p k) (get k m)
  unfolding get filter
  get-filter k p [] u = refl
  get-filter k p ((j, w) ∷ m) u = elim (Bool-cases (e.beq j k)) [
    | inl same ↦
        let absent = filter-none k p m (subst (λ i. get i m ≡ none) ((e.beq_iff j k).0 same) u.0) in
        rw (same, ap (λ i. p i w) ((e.beq_iff j k).0 same))
          (if_ind (λ z. get k z ≡ (if p k w then some w else none)) (p k w) ((j, w) ∷ filter p m)
            (filter p m) (λ yes. rw (same, yes) refl) (λ no. rw no absent))
    | inr ne ↦ ground (arith, get-filter k p m u.1)
  ]

  pub filter-Unique : (p : K → V → Bool) (m : Dict K V) → Unique m → Unique (filter p m)
  unfolding filter
  filter-Unique p [] u = tt
  filter-Unique p ((j, w) ∷ m) u = ground (arith, filter-Unique p m u.1, filter-none j p m u.0)

  -- SQL's `UPDATE`, over every row.
  unfoldable pub update : (K → V → V) → Dict K V → Dict K V
  update f [] = []
  update f ((j, w) ∷ m) = (j, f j w) ∷ update f m

  pub get-update :
      (k : K) (f : K → V → V) (m : Dict K V) → get k (update f m) ≡ Option.map (f k) (get k m)
  unfolding get update
  get-update k f [] = refl
  get-update k f ((j, w) ∷ m) = elim (Bool-cases (e.beq j k)) [
    | inl same ↦ rw (same, ap (λ i. some (f i w)) ((e.beq_iff j k).0 same)) refl
    | inr ne ↦ rw ne (get-update k f m)
  ]

  pub update-Unique : (f : K → V → V) (m : Dict K V) → Unique m → Unique (update f m)
  unfolding update
  update-Unique f [] u = tt
  update-Unique f ((j, w) ∷ m) (new, u) =
      (rw (get-update j f m) (ap (λ o. Option.map (f j) o) new), update-Unique f m u)

  -- SQL's `EXISTS`.
  unfoldable pub exists : (K → V → Bool) → Dict K V → Bool
  exists p [] = false
  exists p ((j, w) ∷ m) = if p j w then true else exists p m

  pub exists-get :
      (k : K) (v : V) (p : K → V → Bool) (m : Dict K V)
      → get k m ≡ some v
      → p k v ≡ true
      → exists p m ≡ true
  unfolding get exists
  exists-get k v p [] h t = cc
  exists-get k v p ((j, w) ∷ m) h t = elim (Bool-cases (e.beq j k)) [
    | inl same ↦
        let at : w ≡ v = ground (arith, same, h) in
        rw (ap (λ i. p i w) ((e.beq_iff j k).0 same), at, t) refl
    | inr ne ↦
        if_ind (λ z. z ≡ true) (p j w) true (exists p m) (λ _. refl)
          (λ _. exists-get k v p m (ground (arith, ne, h)) t)
  ]

  pub exists-none :
      (k : K) (v : V) (p : K → V → Bool) (m : Dict K V)
      → exists p m ≡ false
      → get k m ≡ some v
      → p k v ≡ false
  exists-none k v p m h at = elim (Bool-cases (p k v)) [
    | inl t ↦ absurd (cc (h, exists-get k v p m at t))
    | inr ne ↦ ne
  ]

  pub exists-true :
      (p : K → V → Bool) (m : Dict K V)
      → Unique m
      → exists p m ≡ true
      → (k : K) × (v : V) × (get k m ≡ some v) × (p k v ≡ true)
  unfolding get exists
  exists-true p [] u h = cc
  exists-true p ((j, w) ∷ m) (new, u) h = elim (Bool-cases (p j w)) [
    | inl t ↦ (j, w, rw ((e.beq_iff j j).1 refl) refl, t)
    | inr ne ↦
        let (k, v, at, t) = exists-true p m u (ground (arith, ne, h)) in
        (k, v, ground (arith, e.beq_iff j k), t)
  ]

  pub exists-never :
      (p : K → V → Bool) (m : Dict K V) → ((k : K) (v : V) → p k v ≡ false) → exists p m ≡ false
  unfolding exists
  exists-never p [] h = refl
  exists-never p ((j, w) ∷ m) h = rw (h j w) (exists-never p m h)

  pub exists-update :
      (p : K → V → Bool) (f : K → V → V) (m : Dict K V)
      → exists p (update f m) ≡ exists (λ k v. p k (f k v)) m
  unfolding exists update
  exists-update p f [] = refl
  exists-update p f ((j, w) ∷ m) =
      ap (λ rest. if p j (f j w) then true else rest) (exists-update p f m)

  pub has-some : (k : K) (v : V) (m : Dict K V) → get k m ≡ some v → has k m ≡ true
  unfolding has
  has-some k v m h = rw (h, has) refl

  pub has-get-map :
      (k : K) (f : V → V) (n m : Dict K V) → get k n ≡ Option.map f (get k m) → has k n ≡ has k m
  unfolding has
  has-get-map k f n m h = elim (Option-cases (get k m)) [
    | inl e ↦ rw (e, h, has) (rw (e, Option.map) refl)
    | inr (v, e) ↦ rw (e, h, has) (rw (e, Option.map) refl)
  ]

  pub get-insert_other :
      (k j : K) (v : V) (m : Dict K V) → e.beq k j ≡ false → get j (insert k v m) ≡ get j m
  get-insert_other k j v m ne = rw (get-insert k j v m, ne) refl

  pub insert-cases :
      (k j : K) (v w : V) (m : Dict K V)
      → get j (insert k v m) ≡ some w
      → ((k ≡ j) × (v ≡ w)) ⊎ (get j m ≡ some w)
  insert-cases k j v w m h = elim (Bool-cases (e.beq k j)) [
    | inl same ↦
        let at : some v ≡ some w = sym (get-insert k j v m ∙ rw same refl) ∙ h in
        inl ((e.beq_iff k j).0 same, cc at)
    | inr ne ↦ inr (sym (get-insert_other k j v m ne) ∙ h)
  ]

  pub delete-some :
      (k j : K) (w : V) (m : Dict K V) → get j (delete k m) ≡ some w → get j m ≡ some w
  delete-some k j w m h = elim (Bool-cases (e.beq k j)) [
    | inl same ↦
        let at : none ≡ some w = sym (get-delete k j m ∙ rw same refl) ∙ h in absurd (cc at)
    | inr ne ↦ sym (get-delete k j m ∙ rw ne refl) ∙ h
  ]

  pub has-insert : (k j : K) (v : V) (m : Dict K V) → has j m ≡ true → has j (insert k v m) ≡ true
  unfolding has
  has-insert k j v m h = ground (arith, get-insert k j v m, h)

  pub get_tail :
      (j k : K) (w v : V) (m : Dict K V)
      → get j m ≡ none
      → get k m ≡ some v
      → get k ((j, w) ∷ m) ≡ some v
  unfolding get
  get_tail j k w v m new at = ground (arith, e.beq_iff j k)

  pub get_head : (j : K) (w : V) (m : Dict K V) → get j ((j, w) ∷ m) ≡ some w
  unfolding get
  get_head j w m = rw ((e.beq_iff j j).1 refl) refl

  pub get_cases :
      (j k : K) (w v : V) (m : Dict K V)
      → get k ((j, w) ∷ m) ≡ some v
      → ((j ≡ k) × (w ≡ v)) ⊎ (get k m ≡ some v)
  unfolding get
  get_cases j k w v m at = elim (Bool-cases (e.beq j k)) [
    | inl same ↦ let is : w ≡ v = ground (arith, same, at) in inl ((e.beq_iff j k).0 same, is)
    | inr ne ↦ inr (ground (arith, ne, at))
  ]

  pub has-delete : (k j : K) (m : Dict K V) → e.beq k j ≡ false → has j (delete k m) ≡ has j m
  unfolding has
  has-delete k j m ne = ground (arith, get-delete k j m, ne)

  pub has-filter :
      (k : K) (p : K → V → Bool) (m : Dict K V)
      → Unique m
      → ((v : V) → p k v ≡ true)
      → has k m ≡ true
      → has k (filter p m) ≡ true
  unfolding has
  has-filter k p m u h at =
      let (v, found) = get-has-true k m at in
      has-some k v (filter p m) (get-filter k p m u ∙ rw (found, passing) (rw (h v) refl))

-- What an option that came from another was.
pub passing-some {κ} :
    {V : Type κ} (p : V → Bool) (o : Option V) (v : V)
    → passing p o ≡ some v
    → (o ≡ some v) × (p v ≡ true)
passing-some p none v h = absurd (cc h)
passing-some p (some w) v h = elim (Bool-cases (p w)) [
  | inl t ↦ let at : some w ≡ some v = ground (arith, t, h) in (at, ground (arith, t, at))
  | inr ne ↦ absurd (ground (arith, ne, h))
]

pub map-some {κ} :
    {V : Type κ} (f : V → V) (o : Option V) (v : V)
    → Option.map f o ≡ some v
    → (w : V) × (o ≡ some w) × (f w ≡ v)
map-some f none v h = absurd (cc h)
map-some f (some w) v h = (w, refl, cc h)

pub filter-some {ℓ κ} :
    {K : Type ℓ} {V : Type κ} ⦃e : Eq K⦄ (k : K) (p : K → V → Bool) (v : V) (m : Dict K V)
    → Unique m
    → get k (filter p m) ≡ some v
    → (get k m ≡ some v) × (p k v ≡ true)
filter-some k p v m u h = passing-some (p k) (get k m) v (sym (get-filter k p m u) ∙ h)
