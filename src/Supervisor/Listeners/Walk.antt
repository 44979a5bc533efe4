-- ===== src/Supervisor/Listeners/Walk.antt =====
-- services/supervisor/src/listener-owner.ts: which processes the walk finds, and that it ends.
use sproutboat.Base.{
  ℕ, zero, suc, ◌+◌, ◌≤◌, ◌<◌, ◌≡◌, ◌↔◌, ◌⊎◌, sym, ap, refl, ◌∙◌, Bool, true, false, ◌||◌, some,
  List, [], ◌∷◌, length, arith, if◌then◌else◌, nat_eq, Bool-cases, inl, inr, ◌==◌, ==_iff,
}
use sproutboat.Base.Bag
use sproutboat.Base.Bag.{has-add}
use sproutboat.Supervisor.Listeners.{pushed, walk, descendants}

module _ (next : ℕ → List ℕ) where
  -- A process and the ones below it.
  pub data Below (root : ℕ) : ℕ → Type 0 where
    itself : Below root root
    child : {p c : ℕ} → Below root p → Bag.has c (next p) ≡ true → Below root c

  has-pushed :
      (a : ℕ) (children queue : List ℕ)
      → Bag.has a (pushed children queue) ≡ (Bag.has a children || Bag.has a queue)
  unfolding pushed Bag.has
  has-pushed a [] queue = refl
  has-pushed a (c ∷ children) queue = ground (arith, has-pushed a children (c ∷ queue))

  length-pushed :
      (children queue : List ℕ) → length (pushed children queue) ≡ length children + length queue
  unfolding pushed
  length-pushed [] queue = omega arith
  length-pushed (c ∷ children) queue = length-pushed children (c ∷ queue) ∙ omega arith

  abbrev known : ℕ → List ℕ → List ℕ → Bool
  known p seen queue = Bag.has p seen || Bag.has p queue

  -- What the loop keeps: it knows the root, only what is below it, and all that is next to what
  -- it has seen.
  record IsWalk (root : ℕ) (seen queue : List ℕ) : Type 0 where
    pub root_known : known root seen queue ≡ true
    pub below : (p : ℕ) → known p seen queue ≡ true → Below root p
    pub closed :
        (p c : ℕ) → Bag.has p seen ≡ true → Bag.has c (next p) ≡ true → known c seen queue ≡ true

  start-IsWalk : (root : ℕ) → IsWalk root [] (root ∷ [])
  unfolding Bag.has
  start-IsWalk root = record {
    root_known = ground arith;
    below = λ p h. let same : root ≡ p = ground (arith, h) in rw (sym same) itself;
    closed = λ p c h. absurd (cc h);
  }

  skip-IsWalk :
      (root p : ℕ) (seen queue : List ℕ)
      → Bag.has p seen ≡ true
      → IsWalk root seen (p ∷ queue)
      → IsWalk root seen queue
  unfolding Bag.has
  skip-IsWalk root p seen queue h w =
      let same = λ (q : ℕ).
        let is : known q seen (p ∷ queue) ≡ known q seen queue = elim (Bool-cases (p == q)) [
          | inl e ↦ let eq : p ≡ q = (==_iff p q).0 e in rw (sym eq) (ground (arith, h))
          | inr ne ↦ ground (arith, ne)
        ] in
        is in
      record {
        root_known = sym (same root) ∙ w.root_known;
        below = λ q k. w.below q (same q ∙ k);
        closed = λ q c seen_q k. sym (same c) ∙ w.closed q c seen_q k;
      }

  known-visit :
      (p q : ℕ) (seen queue : List ℕ)
      → known q (Bag.add p seen) (pushed (next p) queue)
        ≡ (known q seen (p ∷ queue) || Bag.has q (next p))
  unfolding Bag.has
  known-visit p q seen queue = ground (arith, has-add p q seen, has-pushed q (next p) queue)

  head_known : (p : ℕ) (seen queue : List ℕ) → known p seen (p ∷ queue) ≡ true
  unfolding Bag.has
  head_known p seen queue = ground arith

  or_left : (a b : Bool) → a ≡ true → (a || b) ≡ true
  or_left a b h = ground (arith, h)

  or_right : (a b : Bool) → b ≡ true → (a || b) ≡ true
  or_right a b h = ground (arith, h)

  or_cases : (a b : Bool) → (a || b) ≡ true → (a ≡ true) ⊎ (b ≡ true)
  or_cases true b h = inl refl
  or_cases false b h = inr h

  added_cases :
      (p q : ℕ) (seen : List ℕ)
      → Bag.has q (Bag.add p seen) ≡ true
      → (p ≡ q) ⊎ (Bag.has q seen ≡ true)
  added_cases p q seen h = elim (Bool-cases (p == q)) [
    | inl e ↦ inl ((==_iff p q).0 e)
    | inr ne ↦ inr (let is : Bag.has q seen ≡ true = ground (arith, h, ne, has-add p q seen) in is)
  ]

  visit-IsWalk :
      (root p : ℕ) (seen queue : List ℕ)
      → IsWalk root seen (p ∷ queue)
      → IsWalk root (Bag.add p seen) (pushed (next p) queue)
  visit-IsWalk root p seen queue w =
      let mine : known p seen (p ∷ queue) ≡ true = head_known p seen queue in
      record {
        root_known = known-visit p root seen queue ∙ or_left _ _ w.root_known;
        below = λ q k. elim (or_cases _ _ (sym (known-visit p q seen queue) ∙ k)) [
          | inl old ↦ w.below q old
          | inr new ↦ child (w.below p mine) new
        ];
        closed = λ q c seen_q k. known-visit p c seen queue ∙ elim (added_cases p q seen seen_q) [
          | inl here ↦ or_right _ _ (ap (λ x. Bag.has c (next x)) here ∙ k)
          | inr old ↦ or_left _ _ (w.closed q c old k)
        ];
      }

  walk-seen :
      (p n : ℕ) (queue seen : List ℕ)
      → Bag.has p seen ≡ true
      → walk next (suc n) (p ∷ queue) seen ≡ walk next n queue seen
  unfolding walk
  walk-seen p n queue seen h = rw (h, walk) refl

  walk-new :
      (p n : ℕ) (queue seen : List ℕ)
      → Bag.has p seen ≡ false
      → walk next (suc n) (p ∷ queue) seen ≡ walk next n (pushed (next p) queue) (Bag.add p seen)
  unfolding walk
  walk-new p n queue seen h = rw (h, walk) refl

  walk-IsWalk :
      (root n : ℕ) (queue seen result : List ℕ)
      → IsWalk root seen queue
      → walk next n queue seen ≡ some result
      → IsWalk root result []
  unfolding walk
  walk-IsWalk root n [] seen result w e = let is : result ≡ seen = cc e in rw is w
  walk-IsWalk root zero (p ∷ queue) seen result w e = absurd (cc e)
  walk-IsWalk root (suc n) (p ∷ queue) seen result w e = elim (Bool-cases (Bag.has p seen)) [
    | inl there ↦
        walk-IsWalk root n queue seen result (skip-IsWalk root p seen queue there w)
          (sym (walk-seen p n queue seen there) ∙ e)
    | inr new ↦
        walk-IsWalk root n (pushed (next p) queue) (Bag.add p seen) result
          (visit-IsWalk root p seen queue w) (sym (walk-new p n queue seen new) ∙ e)
  ]

  -- What the processes of a list that are not yet seen would push.
  abbrev pub edges : List ℕ → List ℕ → ℕ
  edges [] seen = 0
  edges (p ∷ pids) seen = (if Bag.has p seen then 0 else length (next p)) + edges pids seen

  edges-more : (p : ℕ) (pids seen : List ℕ) → edges pids (Bag.add p seen) ≤ edges pids seen
  edges-more p [] seen = omega arith
  edges-more p (q ∷ pids) seen = ground (arith, edges-more p pids seen, has-add p q seen)

  edges-add :
      (p : ℕ) (pids seen : List ℕ)
      → Bag.has p pids ≡ true
      → Bag.has p seen ≡ false
      → edges pids (Bag.add p seen) + length (next p) ≤ edges pids seen
  unfolding Bag.has
  edges-add p [] seen h new = absurd (cc h)
  edges-add p (q ∷ pids) seen h new = elim (Bool-cases (q == p)) [
    | inl e ↦
        let eq : q ≡ p = (==_iff q p).0 e in
        ground (arith, edges-more p pids seen, has-add p q seen, new, ap (λ x. length (next x)) eq)
    | inr ne ↦ ground (arith, ne, h, edges-add p pids seen, has-add p q seen, new)
  ]

  -- A list of processes that no visit leaves.
  abbrev pub IsClosed : List ℕ → Type 0
  IsClosed pids =
      (p c : ℕ) → Bag.has p pids ≡ true → Bag.has c (next p) ≡ true → Bag.has c pids ≡ true

  walk-ends :
      (pids : List ℕ) (n : ℕ) (queue seen : List ℕ)
      → IsClosed pids
      → ((q : ℕ) → Bag.has q queue ≡ true → Bag.has q pids ≡ true)
      → edges pids seen + length queue ≤ n
      → (result : List ℕ) × (walk next n queue seen ≡ some result)
  unfolding walk Bag.has
  walk-ends pids n [] seen c inside h = (seen, refl)
  walk-ends pids zero (p ∷ queue) seen c inside h = absurd (omega arith)
  walk-ends pids (suc n) (p ∷ queue) seen c inside h =
      let here : Bag.has p pids ≡ true = inside p (ground arith) in
      let later = λ (q : ℕ) (k : Bag.has q queue ≡ true). inside q (ground (arith, k)) in
      elim (Bool-cases (Bag.has p seen)) [
        | inl there ↦
            let (r, e) = walk-ends pids n queue seen c later (omega arith) in
            (r, walk-seen p n queue seen there ∙ e)
        | inr new ↦
            let less = edges-add p pids seen here new in
            let (r, e) =
              walk-ends pids n (pushed (next p) queue) (Bag.add p seen) c
                (λ q k. elim (Bool-cases (Bag.has q (next p))) [
                  | inl found ↦ c p q here found
                  | inr absent ↦ later q (ground (arith, k, absent, has-pushed q (next p) queue))
                ])
                (rw (length-pushed (next p) queue) (omega arith)) in
            (r, walk-new p n queue seen new ∙ e)
      ]

  seen_known : (p : ℕ) (seen : List ℕ) → known p seen [] ≡ Bag.has p seen
  unfolding Bag.has
  seen_known p seen = ground arith

  only :
      (root : ℕ) (pids : List ℕ)
      → Bag.has root pids ≡ true
      → (q : ℕ) → Bag.has q (root ∷ []) ≡ true
      → Bag.has q pids ≡ true
  unfolding Bag.has
  only root pids at q h = let same : root ≡ q = ground (arith, h) in rw (sym same) at

  found-Below :
      (root : ℕ) (found : List ℕ)
      → IsWalk root found []
      → {p : ℕ} → Below root p
      → Bag.has p found ≡ true
  found-Below root found w itself = sym (seen_known root found) ∙ w.root_known
  found-Below root found w (child {p} {c} b k) =
      sym (seen_known c found) ∙ w.closed p c (found-Below root found w b) k

  -- With fuel for each edge between the processes that the root may reach, the walk ends, and has
  -- exactly the root and what is below it.
  pub descendants_iff :
      (pids : List ℕ) (fuel root : ℕ)
      → IsClosed pids
      → Bag.has root pids ≡ true
      → edges pids [] < fuel
      → (found : List ℕ) × (descendants next fuel root ≡ some found)
        × ((p : ℕ) → (Bag.has p found ≡ true) ↔ Below root p)
  unfolding descendants
  descendants_iff pids fuel root c at enough =
      let (found, ends) = walk-ends pids fuel (root ∷ []) [] c (only root pids at) (omega arith) in
      let w = walk-IsWalk root fuel (root ∷ []) [] found (start-IsWalk root) ends in
      (found, ends, λ p. (λ h. w.below p (seen_known p found ∙ h), λ b. found-Below root found w b))
