-- ===== src/Control/EventTypes/Scrubbing.antt =====
-- apps/control/src/events.ts, `scrub`.
use sproutboat.Base.{
  ℕ, ◌≤◌, ◌≡◌, ap, refl, ◌∙◌, zero, suc, Option, none, some, List, [], ◌∷◌, ◌++◌, length,
  length-append, ltb, if◌then◌else◌, arith, inl, inr, Bool-cases, Option-cases, if_ind,
}
use sproutboat.Base.Codes.{Text, codes, text_eq, text_eq_iff, text_eq_inst}
use sproutboat.Base.Bag
use sproutboat.Base.Dict
use sproutboat.Base.Dict.{Dict, get-insert}
use sproutboat.Control.EventTypes.{
  EventValue, text, number, boolean, null, take_text, scrub_value, scrub_keys, allowed_keys, scrub,
}

-- The value a key has after it was taken over from what was given.
pub merged : Option EventValue → Option EventValue → Option EventValue
merged none out = out
merged (some value) out = some (scrub_value value)

one_key :
    (key k : Text) (given out : Dict Text EventValue)
    → Dict.get key (elim (Dict.get k given) [
      | none ↦ out
      | some value ↦ Dict.insert k (scrub_value value) out
    ])
      ≡ (if text_eq k key then merged (Dict.get key given) (Dict.get key out) else Dict.get key out)
unfolding merged
one_key key k given out = elim (Bool-cases (text_eq k key)) [
  | inl same ↦
      rw (same, ap (λ j. Dict.get j given) ((text_eq_iff k key).0 same))
        (elim (Option-cases (Dict.get key given)) [
          | inl e ↦ rw (e, merged) refl
          | inr (v, e) ↦ rw (e, merged) (rw (get-insert k key (scrub_value v) out, same) refl)
        ])
  | inr ne ↦ rw ne (elim (Option-cases (Dict.get k given)) [
    | inl e ↦ rw e refl
    | inr (v, e) ↦ rw e (rw (get-insert k key (scrub_value v) out, ne) refl)
  ])
]

scrub_keys-get :
    (key : Text) (keys : List Text) (given out : Dict Text EventValue)
    → Dict.get key (scrub_keys keys given out) ≡ (
        if Bag.has key keys
        then merged (Dict.get key given) (Dict.get key out)
        else Dict.get key out)
unfolding scrub_keys Bag.has merged
scrub_keys-get key [] given out = refl
scrub_keys-get key (k ∷ keys) given out =
    scrub_keys-get key keys given
      (elim (Dict.get k given) [ none ↦ out | some value ↦ Dict.insert k (scrub_value value) out ])
    ∙ rw (one_key key k given out) (ground arith)

-- What an event keeps under a key is the given value, cut, when its type may carry the key, and
-- nothing under any other key.
pub get-scrub :
    (key name : Text) (given : Dict Text EventValue)
    → Dict.get key (scrub name given)
      ≡ (if Bag.has key (allowed_keys name) then merged (Dict.get key given) none else none)
unfolding scrub Dict.get
get-scrub key name given = scrub_keys-get key (allowed_keys name) given []

-- The length of a text value.
pub size : EventValue → ℕ
size (text value) = length value
size _ = 0

take_text-length : (n : ℕ) (s : Text) → length (take_text n s) ≤ n
unfolding take_text
take_text-length zero s = omega arith
take_text-length (suc n) [] = omega arith
take_text-length (suc n) (c ∷ s) = omega (arith, take_text-length n s)

-- No kept text is longer than 503 code units.
pub scrub_value-bounds : (value : EventValue) → size (scrub_value value) ≤ 503
unfolding scrub_value size
scrub_value-bounds (text value) =
    if_ind (λ z. length z ≤ 503) (ltb 500 (length value)) (take_text 500 value ++ codes "...") value
      (λ _.
        omega
          (arith, length-append (take_text 500 value) (codes "..."), take_text-length 500 value))
      (λ short. ground arith)
scrub_value-bounds (number value) = omega arith
scrub_value-bounds (boolean value) = omega arith
scrub_value-bounds null = omega arith
