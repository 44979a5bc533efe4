-- ===== src/Control/EventTypes/Tests.antt =====
-- apps/control/src/event-types.ts, apps/control/src/events.ts: runs, and the theorems at inputs.
use sproutboat.Base.{◌≡◌, ◌↔◌, ◌⊎◌, refl, true, false, none, [], ◌∷◌, All, if◌then◌else◌}
use sproutboat.Base.Codes.{Text, codes, text_eq, text_eq_inst}
use sproutboat.Base.Split.{onto_first, split, starts_with}
use sproutboat.Base.Bag
use sproutboat.Base.Dict
use sproutboat.Base.Dict.{Dict}
use sproutboat.Control.EventTypes.{
  event_types, is_event_type, event_data_keys, first_part, distinct, event_groups, ends_with,
  drop_last, parse_type_filter, filter_matches, type_matches, parse_stored_filters, EventValue,
  text, take_text, scrub_value, scrub_keys, allowed_keys, scrub,
}
use sproutboat.Control.EventTypes.Filters.{IsUnknown, Selects, SomeOf, type_matches_iff}
use sproutboat.Control.EventTypes.Scrubbing.{merged, get-scrub}

words : Unit {0}
unfolding event_types is_event_type event_data_keys first_part distinct event_groups ends_with
    drop_last parse_type_filter filter_matches type_matches parse_stored_filters take_text
    scrub_value scrub_keys allowed_keys scrub text_eq onto_first split starts_with Bag.has Bag.add
    Dict.get Dict.insert
words = tt

filter_tests :
    (type_matches (parse_stored_filters (codes "deploy.*" ∷ [])) (codes "deploy.failed") ≡ true)
    × (type_matches (parse_stored_filters (codes "deploy.*" ∷ [])) (codes "secret.set") ≡ false)
    × (type_matches (parse_stored_filters (codes "deploy.paused" ∷ [])) (codes "secret.set") ≡ true)
unfolding words
filter_tests = (refl, refl, refl)

abbrev given : Dict Text EventValue
given = (codes "name", text (codes "CLI")) ∷ (codes "token", text (codes "s3cret")) ∷ []

scrub_tests : scrub (codes "secret.set") given ≡ (codes "name", text (codes "CLI")) ∷ []
unfolding words
scrub_tests = refl

type_matches_iff_example :
    (type_matches (parse_stored_filters (codes "deploy.*" ∷ [])) (codes "deploy.failed") ≡ true) ↔ (
      All IsUnknown (codes "deploy.*" ∷ [])
      ⊎ SomeOf (Selects (codes "deploy.failed")) (codes "deploy.*" ∷ []))
type_matches_iff_example = type_matches_iff (codes "deploy.failed") (codes "deploy.*" ∷ [])

get-scrub_example : Dict.get (codes "token") (scrub (codes "secret.set") given) ≡ (
    if Bag.has (codes "token") (allowed_keys (codes "secret.set"))
    then merged (Dict.get (codes "token") given) none
    else none)
get-scrub_example = get-scrub (codes "token") (codes "secret.set") given
