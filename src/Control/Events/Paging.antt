-- ===== src/Control/Events/Paging.antt =====
-- apps/control/src/events.ts, `listEvents` and its pages.
use sproutboat.Base.{
  ℕ, zero, suc, ◌≤◌, ◌<◌, ◌≡◌, sym, ap, ◌∙◌, refl, min, max, Bool, true, false, ◌&&◌, Option, none,
  some, List, [], ◌∷◌, ◌++◌, length, ltb, if◌then◌else◌, arith, if_ind, lt→ltb, Bool-cases,
  Option-cases, inl, inr, All,
}
use mathlib.Core.Path.{subst}
use sproutboat.Control.Webhooks.Queue.{limit}
use sproutboat.Control.Events.{
  EventRow, EventQuery, keep_rows, holds_of, selects, last_id_of, list_events,
}

-- The rows stand by descending id.
abbrev pub Descending : List EventRow → Type 0
Descending [] = Unit
Descending (row ∷ rows) = All (λ (r : EventRow). r.id < row.id) rows × Descending rows

-- Every row that a query selects, newest first.
abbrev pub selected : EventQuery → List EventRow → List EventRow
selected q table = keep_rows (selects q) table

keep_rows-All :
    (P : EventRow → Type 0) (p : EventRow → Bool) (rows : List EventRow)
    → ((r : EventRow) → p r ≡ true → P r)
    → All P (keep_rows p rows)
unfolding keep_rows
keep_rows-All P p [] h = tt
keep_rows-All P p (r ∷ rows) h =
    if_ind (λ z. All P z) (p r) (r ∷ keep_rows p rows) (keep_rows p rows)
      (λ kept. (h r kept, keep_rows-All P p rows h)) (λ _. keep_rows-All P p rows h)

still_All :
    (P : EventRow → Type 0) (p : EventRow → Bool) (rows : List EventRow)
    → All P rows
    → All P (keep_rows p rows)
unfolding keep_rows
still_All P p [] a = tt
still_All P p (r ∷ rows) (h, a) =
    if_ind (λ z. All P z) (p r) (r ∷ keep_rows p rows) (keep_rows p rows)
      (λ _. (h, still_All P p rows a)) (λ _. still_All P p rows a)

pub keep_rows-Descending :
    (p : EventRow → Bool) (rows : List EventRow) → Descending rows → Descending (keep_rows p rows)
unfolding keep_rows
keep_rows-Descending p [] d = tt
keep_rows-Descending p (r ∷ rows) (a, d) =
    if_ind (λ z. Descending z) (p r) (r ∷ keep_rows p rows) (keep_rows p rows)
      (λ _. (still_All (λ s. s.id < r.id) p rows a, keep_rows-Descending p rows d))
      (λ _. keep_rows-Descending p rows d)

keep_rows-keep_rows :
    (p q both : EventRow → Bool) (rows : List EventRow)
    → ((r : EventRow) → both r ≡ p r && q r)
    → keep_rows q (keep_rows p rows) ≡ keep_rows both rows
unfolding keep_rows
keep_rows-keep_rows p q both [] h = refl
keep_rows-keep_rows p q both (r ∷ rows) h = elim (Bool-cases (p r)) [
  | inl kept ↦
      rw (kept, h r)
        (rw kept
          (ap (λ rest. if q r then r ∷ rest else rest) (keep_rows-keep_rows p q both rows h)))
  | inr gone ↦ rw (gone, h r) (rw gone (keep_rows-keep_rows p q both rows h))
]

kept_below :
    (b : ℕ) (rows : List EventRow)
    → All (λ r. r.id < b) rows
    → keep_rows (λ r. ltb r.id b) rows ≡ rows
unfolding keep_rows
kept_below b [] a = refl
kept_below b (r ∷ rows) (h, a) = rw (lt→ltb r.id b h) (ap (λ rest. r ∷ rest) (kept_below b rows a))

limit_twice : (n : ℕ) (rows : List EventRow) → limit n (limit (suc n) rows) ≡ limit n rows
unfolding limit
limit_twice zero rows = refl
limit_twice (suc n) [] = refl
limit_twice (suc n) (r ∷ rows) = ap (λ rest. r ∷ rest) (limit_twice n rows)

limit_short : (n : ℕ) (rows : List EventRow) → length rows ≤ n → limit n rows ≡ rows
unfolding limit
limit_short zero [] h = refl
limit_short zero (r ∷ rows) h = absurd (omega arith)
limit_short (suc n) [] h = refl
limit_short (suc n) (r ∷ rows) h = ap (λ rest. r ∷ rest) (limit_short n rows (omega arith))

more_rows :
    (n : ℕ) (rows : List EventRow) → ltb n (length (limit (suc n) rows)) ≡ ltb n (length rows)
unfolding limit
more_rows zero [] = refl
more_rows zero (r ∷ rows) = ground arith
more_rows (suc n) [] = refl
more_rows (suc n) (r ∷ rows) = ground (arith, more_rows n rows)

not_below : (n : ℕ) → ltb n n ≡ false
not_below n = ground arith

above : (b n : ℕ) → b < n → ltb n b ≡ false
above b n h = ground arith

-- A full page's last id splits the rows that remain from the page.
page_split :
    (n : ℕ) (rows : List EventRow)
    → Descending rows
    → suc n ≤ length rows
    → (b : ℕ) × (last_id_of (limit (suc n) rows) ≡ some b)
      × (limit (suc n) rows ++ keep_rows (λ r. ltb r.id b) rows ≡ rows)
      × ((x : ℕ) → All (λ (r : EventRow). r.id < x) rows → b < x)
unfolding limit last_id_of keep_rows
page_split n [] d h = absurd (omega arith)
page_split zero (r ∷ rows) (a, d) h = (
  r.id,
  refl,
  rw (not_below r.id) (ap (λ rest. r ∷ rest) (kept_below r.id rows a)),
  λ x all. all.0,
)
page_split (suc n) (r ∷ []) d h = absurd (omega arith)
page_split (suc n) (r ∷ s ∷ rows) (a, d) h =
    let (b, last, split, less) = page_split n (s ∷ rows) d (omega arith) in
    (b, last, rw (above b r.id (less r.id a)) (ap (λ rest. r ∷ rest) split), λ x all. less x all.1)

implied :
    (rest wide narrow : Bool)
    → (narrow ≡ true → wide ≡ true)
    → (rest && narrow) ≡ ((rest && wide) && narrow)
implied rest true true h = ground arith
implied rest true false h = ground arith
implied rest false true h = absurd (cc (h refl))
implied rest false false h = ground arith

-- What a query selects from an id on.
selects_before :
    (q : EventQuery) (b : ℕ) (r : EventRow)
    → ((x : ℕ) → q.before ≡ some x → b < x)
    → selects (record q { before = some b }) r ≡ selects q r && ltb r.id b
unfolding selects
selects_before q b r h =
    implied _ (holds_of q.before (λ before. ltb r.id before)) (ltb r.id b) (λ near.
      elim (Option-cases q.before) [
        | inl e ↦ rw e refl
        | inr (x, e) ↦ rw e (let less = h x e in ground arith)
      ])

selected_below :
    (q : EventQuery) (x : ℕ) (r : EventRow) → q.before ≡ some x → selects q r ≡ true → r.id < x
unfolding selects
selected_below q x r e = rw e (λ s. ground (arith, s))

abbrev next_before : ℕ → List EventRow → Option ℕ
next_before size rows = if ltb size (length rows) then last_id_of (limit size rows) else none

page_of :
    (q : EventQuery) (table : List EventRow)
    → Descending table
    → (size : ℕ) → 1 ≤ size
    → (next_before size (limit (suc size) (selected q table)) ≡ none
        → limit size (limit (suc size) (selected q table)) ≡ selected q table)
      × ((b : ℕ)
          → next_before size (limit (suc size) (selected q table)) ≡ some b
          → limit size (limit (suc size) (selected q table))
              ++ selected (record q { before = some b }) table
            ≡ selected q table)
page_of q table d zero h = absurd (omega arith)
page_of q table d (suc n) h =
    let rows = selected q table in
    let descends = keep_rows-Descending (selects q) table d in
    rw (limit_twice (suc n) rows, more_rows (suc n) rows)
      (elim (Bool-cases (ltb (suc n) (length rows))) [
        | inr all ↦ rw all (λ _. limit_short (suc n) rows (ground arith), λ b e. absurd (cc e))
        | inl more ↦
            let (b, at, split, less) = page_split n rows descends (ground arith) in
            rw (more, at)
              (
                λ e. absurd (cc e),
                λ c e.
                    let same : b ≡ c = cc e in
                    subst
                      (λ x.
                        limit (suc n) rows ++ selected (record q { before = some x }) table ≡ rows)
                      same
                      (ap (λ rest. limit (suc n) rows ++ rest)
                          (sym (
                            keep_rows-keep_rows (selects q) (λ r. ltb r.id b) _ table
                              (λ r. selects_before q b r (λ x bound. less x (
                                keep_rows-All (λ r. r.id < x) (selects q) table
                                  (λ r kept. selected_below q x r bound kept))))))
                        ∙ split),
              )
      ])

-- For a table by descending id, following `nextBefore` loses nothing and repeats nothing: a page,
-- followed by all that the same query selects before its `nextBefore`, is all that the query
-- selects, newest first; and without a `nextBefore` the page is all.
pub list_events-selected :
    (q : EventQuery) (table : List EventRow)
    → Descending table
    → ((list_events q table).1 ≡ none → (list_events q table).0 ≡ selected q table)
      × ((b : ℕ)
          → (list_events q table).1 ≡ some b
          → (list_events q table).0 ++ selected (record q { before = some b }) table
            ≡ selected q table)
unfolding list_events
list_events-selected q table d = page_of q table d (min (max 1 q.size) 200) (omega arith)
