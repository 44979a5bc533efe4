-- ===== src/Control/Webhooks/Retries.antt =====
-- apps/control/src/webhooks.ts: the retries of a delivery, and the pruning of a webhook's history.
use sproutboat.Base.{
  ℕ, ◌+◌, ◌≤◌, ◌<◌, ◌≡◌, sym, refl, Bool, ◌||◌, not, Option, none, some, List, [], ◌∷◌, map, length,
  leb, if◌then◌else◌, arith, inl, inr, Bool-cases, suc, zero,
}
use sproutboat.Base.Codes.{Text, text_eq, text_eq_iff, text_eq_inst}
use mathlib.Core.Path.{subst}
use sproutboat.Base.Bag
use sproutboat.Base.Dict
use sproutboat.Base.Dict.{Dict}
use sproutboat.Control.Webhooks.{Delivery, DeliveryState, pending, failed}
use sproutboat.Control.Webhooks.Queue.{
  limit, of_webhook, newest_first, newest_ids, prune_deliveries, keep_deliveries,
}
use sproutboat.Control.Webhooks.Sending.{retry_delay, retry, end_attempt, is_due, due_row}

-- The next attempt, made some time after it is due, fails in a way that may be tried again.
unfoldable pub fail_next : Text → ℕ → Dict Text Delivery → Dict Text Delivery
fail_next id late rows = elim (Dict.get id rows) [
  | none ↦ rows
  | some row ↦ elim row.next_attempt_at [
    | none ↦ rows
    | some due ↦
        if is_due (due + late) row
        then end_attempt id (due_row row) (due + late) (retry none []) rows
        else rows
  ]
]

unfoldable pub fail_all : Text → List ℕ → Dict Text Delivery → Dict Text Delivery
unfolding fail_next
fail_all id [] rows = rows
fail_all id (late ∷ times) rows = fail_all id times (fail_next id late rows)

-- 30 seconds, 2 minutes, 10 minutes and an hour.
abbrev pub pauses : List ℕ
pauses = 30000 ∷ 120000 ∷ 600000 ∷ 3600000 ∷ []

-- What becomes of a delivery that is due at a time, has `n` attempts behind it and some pauses left:
-- its attempts, its state and its next time.
abbrev pub Outlook : Type 0
Outlook = ℕ × DeliveryState × Option ℕ

abbrev pub outlook : ℕ → ℕ → List ℕ → List ℕ → Outlook
outlook n due left [] = (n, pending, some due)
outlook n due [] (late ∷ times) = (n + 1, failed, none)
outlook n due (pause ∷ left) (late ∷ times) = outlook (n + 1) (due + late + pause) left times

abbrev pub Stands : Text → Dict Text Delivery → Outlook → Type 0
Stands id rows o =
    (d : Delivery) × (Dict.get id rows ≡ some d)
    × (d.attempt ≡ o.0)
    × (d.state ≡ o.1)
    × (d.next_attempt_at ≡ o.2)

-- The pauses after `n` attempts.
Left : ℕ → List ℕ → Type 0
Left n [] = n ≡ 4
Left n (pause ∷ left) = (n < 4) × (retry_delay (n + 1) ≡ pause) × Left (n + 1) left

abbrev once_more : ℕ → ℕ → ℕ → Outlook
once_more n due late =
    if leb 5 (n + 1)
    then (n + 1, failed, none)
    else (n + 1, pending, some (due + late + retry_delay (n + 1)))

-- The rows of a webhook that have one of some ids.
count_ids : (Text → Bool) → Dict Text Delivery → ℕ
count_ids p [] = 0
count_ids p ((j, w) ∷ rows) = (if p j then 1 else 0) + count_ids p rows

count_absent :
    (id : Text) (rows : Dict Text Delivery)
    → Dict.get id rows ≡ none
    → count_ids (text_eq id) rows ≡ 0
unfolding count_ids Dict.get
count_absent id [] h = refl
count_absent id ((j, w) ∷ rows) h =
    ground (arith, text_eq_iff j id, text_eq_iff id j, count_absent id rows)

count_one :
    (id : Text) (rows : Dict Text Delivery) → Dict.Unique rows → count_ids (text_eq id) rows ≤ 1
unfolding count_ids
count_one id [] u = omega arith
count_one id ((j, w) ∷ rows) (free, u) = elim (Bool-cases (text_eq id j)) [
  | inl same ↦ rw same (
      omega (
        arith,
        count_absent id rows
            (subst (λ k. Dict.get k rows ≡ none) (sym ((text_eq_iff id j).0 same)) free),
      ))
  | inr ne ↦ rw ne (omega (arith, count_one id rows u))
]

count_none : (rows : Dict Text Delivery) → count_ids (λ j. Bag.has j []) rows ≡ 0
unfolding count_ids Bag.has
count_none [] = refl
count_none ((j, w) ∷ rows) = omega (arith, count_none rows)

count_split :
    (x : Text) (ids : List Text) (rows : Dict Text Delivery)
    → count_ids (λ j. Bag.has j (x ∷ ids)) rows
      ≤ count_ids (text_eq x) rows + count_ids (λ j. Bag.has j ids) rows
unfolding count_ids Bag.has
count_split x ids [] = omega arith
count_split x ids ((j, w) ∷ rows) = ground (arith, count_split x ids rows)

count_ids-length :
    (ids : List Text) (rows : Dict Text Delivery)
    → Dict.Unique rows
    → count_ids (λ j. Bag.has j ids) rows ≤ length ids
count_ids-length [] rows u = omega (arith, count_none rows)
count_ids-length (x ∷ ids) rows u =
    omega (arith, count_split x ids rows, count_one x rows u, count_ids-length ids rows u)

limit-length : {A : Type 0} (n : ℕ) (xs : List A) → length (limit n xs) ≤ n
unfolding limit
limit-length zero xs = omega arith
limit-length (suc n) [] = omega arith
limit-length (suc n) (x ∷ xs) = omega (arith, limit-length n xs)

map-length : {A : Type 0} {B : Type 0} (f : A → B) (xs : List A) → length (map f xs) ≡ length xs
map-length f [] = refl
map-length f (x ∷ xs) = omega (arith, map-length f xs)

few_ids :
    (hook : Text) (rows : Dict Text Delivery) → length (newest_ids keep_deliveries hook rows) ≤ 200
unfolding newest_ids
few_ids hook rows = omega (
  arith,
  map-length (λ (e : Text × Delivery). e.0) (limit 200 (newest_first [] (of_webhook hook rows))),
  limit-length 200 (newest_first [] (of_webhook hook rows)),
)

kept_count :
    (hook : Text) (ids : List Text) (rows : Dict Text Delivery)
    → length (
        of_webhook hook
          (Dict.filter (λ id row. not (text_eq row.webhook_id hook) || Bag.has id ids) rows))
      ≤ count_ids (λ j. Bag.has j ids) rows
unfolding of_webhook Dict.filter count_ids
kept_count hook ids [] = omega arith
kept_count hook ids ((j, w) ∷ rows) = ground (arith, kept_count hook ids rows)

-- After the pruning that follows each queued delivery, its webhook has at most 200 rows, in a
-- table that has no id twice.
pub prune_deliveries-bounds :
    (hook : Text) (rows : Dict Text Delivery)
    → Dict.Unique rows
    → length (of_webhook hook (prune_deliveries hook rows)) ≤ 200
unfolding prune_deliveries
prune_deliveries-bounds hook rows u =
    let ids = newest_ids keep_deliveries hook rows in
    omega (arith, kept_count hook ids rows, count_ids-length ids rows u, few_ids hook rows)
