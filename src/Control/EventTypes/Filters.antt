-- ===== src/Control/EventTypes/Filters.antt =====
-- apps/control/src/event-types.ts: which events a stored filter list selects.
use sproutboat.Base.{
  ◌≡◌, ◌↔◌, ◌⊎◌, refl, Bool, true, false, ◌&&◌, Option, none, some, List, [], ◌∷◌, ◌++◌, any, All,
  arith, inl, inr, Bool-cases, Option-cases,
}
use sproutboat.Base.Codes.{Text, codes, text_eq_inst, text_eq_iff}
use sproutboat.Base.Split.{starts_with_iff}
use sproutboat.Base.Bag
use sproutboat.Control.EventTypes.{
  is_event_type, event_groups, ends_with, drop_last, TypeFilter, parse_type_filter, filter_matches,
  type_matches, parse_stored_filters,
}

-- A token that names neither a type nor a group.
pub IsUnknown : Text → Type 0
IsUnknown token =
    (is_event_type token ≡ false)
    × ((ends_with (codes ".*") token && Bag.has token event_groups) ≡ false)

-- A type names itself, a group `g.*` every name that begins with `g.`.
pub Selects : Text → Text → Type 0
Selects name token =
    ((is_event_type token ≡ true) × (token ≡ name))
    ⊎ ((is_event_type token ≡ false)
        × ((ends_with (codes ".*") token && Bag.has token event_groups) ≡ true)
        × ((rest : Text) × (name ≡ drop_last token ++ rest)))

pub SomeOf : (Text → Type 0) → List Text → Type 0
SomeOf P [] = ⊥
SomeOf P (x ∷ xs) = P x ⊎ SomeOf P xs

-- Some stored filter matches.
any_match : Text → List Text → Bool
any_match name tokens = any (filter_matches name) (parse_stored_filters tokens)

matches_token : Text → Option TypeFilter → Bool
matches_token name none = false
matches_token name (some filter) = filter_matches name filter

token_iff :
    (name token : Text) → (matches_token name (parse_type_filter token) ≡ true) ↔ Selects name token
unfolding matches_token parse_type_filter filter_matches Selects
token_iff name token = elim (Bool-cases (is_event_type token)) [
  | inl known ↦ rw known (
    λ h. inl (refl, (text_eq_iff token name).0 h),
    λ h. elim h [ inl (k, e) ↦ (text_eq_iff token name).1 e | inr r ↦ absurd (cc (r.0)) ],
  )
  | inr unknown ↦ elim (Bool-cases (ends_with (codes ".*") token && Bag.has token event_groups)) [
    | inl group ↦
        rw (unknown, group)
          (
            λ h. inr (refl, refl, (starts_with_iff (drop_last token) name).0 h),
            λ h. elim h [
              | inl k ↦ absurd (cc (k.0))
              | inr (u, g, more) ↦ (starts_with_iff (drop_last token) name).1 more
            ],
          )
    | inr neither ↦
        rw (unknown, neither)
          (
            λ h. absurd (cc h),
            λ h. elim h [ inl k ↦ absurd (cc (k.0)) | inr (u, g, more) ↦ absurd (cc g) ],
          )
  ]
]

any_match_iff :
    (name : Text) (tokens : List Text)
    → (any_match name tokens ≡ true) ↔ SomeOf (Selects name) tokens
unfolding any_match parse_stored_filters SomeOf matches_token
any_match_iff name [] = (λ h. absurd (cc h), λ h. absurd h)
any_match_iff name (token ∷ tokens) =
    let here = token_iff name token in
    let later = any_match_iff name tokens in
    elim (Option-cases (parse_type_filter token)) [
      | inl e ↦
          rw (e, parse_stored_filters)
            (
              λ h. inr (later.0 h),
              λ s. elim s [ inl x ↦ absurd (cc (rw e at (here.1 x))) | inr y ↦ later.1 y ],
            )
      | inr (filter, e) ↦
          rw (e, parse_stored_filters)
            (
              λ h. elim (Bool-cases (filter_matches name filter)) [
                | inl m ↦ inl ((rw e at here).0 m)
                | inr n ↦ inr (later.0 (rw n at h))
              ],
              λ s. elim s [
                | inl x ↦ let m = (rw e at here).1 x in rw m refl
                | inr y ↦ let m = later.1 y in ground arith
              ],
            )
    ]

IsUnknown-iff : (token : Text) → (parse_type_filter token ≡ none) ↔ IsUnknown token
unfolding parse_type_filter IsUnknown
IsUnknown-iff token = elim (Bool-cases (is_event_type token)) [
  | inl known ↦ rw known (λ h. absurd (cc h), λ h. absurd (cc (h.0)))
  | inr unknown ↦ elim (Bool-cases (ends_with (codes ".*") token && Bag.has token event_groups)) [
    | inl group ↦ rw (unknown, group) (λ h. absurd (cc h), λ h. absurd (cc (h.1)))
    | inr neither ↦ rw (unknown, neither) (λ h. (refl, refl), λ h. refl)
  ]
]

none_stored : (tokens : List Text) → (parse_stored_filters tokens ≡ []) ↔ All IsUnknown tokens
unfolding parse_stored_filters
none_stored [] = (λ h. tt, λ h. refl)
none_stored (token ∷ tokens) = elim (Option-cases (parse_type_filter token)) [
  | inl e ↦
      rw (e, parse_stored_filters)
        (
          λ h. ((IsUnknown-iff token).0 e, (none_stored tokens).0 h),
          λ h. (none_stored tokens).1 h.1,
        )
  | inr (filter, e) ↦
      rw (e, parse_stored_filters)
        (λ h. absurd (cc h), λ h. absurd (cc (e, (IsUnknown-iff token).1 h.0)))
]

type_matches-any :
    (name : Text) (filters : List TypeFilter)
    → (type_matches filters name ≡ true)
      ↔ ((filters ≡ []) ⊎ (any (filter_matches name) filters ≡ true))
unfolding type_matches
type_matches-any name [] = (λ h. inl refl, λ h. refl)
type_matches-any name (f ∷ fs) = (λ h. inr h, λ h. elim h [ inl e ↦ absurd (cc e) | inr m ↦ m ])

-- What a webhook with these stored filters receives: the events that a token selects, by name or
-- by group, and every event when the list names nothing that this build knows, be it empty or not.
pub type_matches_iff :
    (name : Text) (tokens : List Text)
    → (type_matches (parse_stored_filters tokens) name ≡ true)
      ↔ (All IsUnknown tokens ⊎ SomeOf (Selects name) tokens)
unfolding any_match
type_matches_iff name tokens =
    let split = type_matches-any name (parse_stored_filters tokens) in
    let empty = none_stored tokens in
    let some_one = any_match_iff name tokens in
    (
      λ h. elim (split.0 h) [ inl e ↦ inl (empty.0 e) | inr m ↦ inr (some_one.0 m) ],
      λ h. split.1 (elim h [ inl e ↦ inl (empty.1 e) | inr m ↦ inr (some_one.1 m) ]),
    )
