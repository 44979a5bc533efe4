-- ===== src/Control/EventTypes.antt =====
-- apps/control/src/event-types.ts: the vocabulary of events and the filters over it, and `scrub`
-- of apps/control/src/events.ts, which keeps what an event may carry.
mod Tests
pub mod Filters
pub mod Scrubbing
use sproutboat.Base.{
  ℕ, zero, suc, Bool, true, false, ◌&&◌, Option, none, some, List, [], ◌∷◌, ◌++◌, map, length, any,
  ltb, if◌then◌else◌,
}
use sproutboat.Base.Codes.{Text, codes, text_eq, text_eq_inst}
use sproutboat.Base.Split.{split, starts_with}
use sproutboat.Base.Bag
use sproutboat.Base.Dict
use sproutboat.Base.Dict.{Dict}
use Prim.Native.String.{String}

-- The type names, each with the keys its data may carry.
abbrev pub vocabulary : List (String × List String)
vocabulary =
    ("deploy.started", "project" ∷ [])
    ∷ (
      "deploy.succeeded",
      "deploymentId" ∷ "digest" ∷ "hostname" ∷ "binarySize" ∷ "compileMs" ∷ "newProject"
          ∷ "unchanged" ∷ [],
    )
    ∷ ("deploy.failed", "reason" ∷ [])
    ∷ ("deploy.activated", "from" ∷ "to" ∷ [])
    ∷ ("deploy.rolled_back", "from" ∷ "to" ∷ [])
    ∷ ("deploy.deleted", "deploymentId" ∷ [])
    ∷ ("project.created", "hostname" ∷ [])
    ∷ ("project.deleted", "hostnames" ∷ [])
    ∷ ("secret.set", "name" ∷ [])
    ∷ ("secret.deleted", "name" ∷ [])
    ∷ ("domain.added", "hostname" ∷ [])
    ∷ ("domain.verified", "hostname" ∷ [])
    ∷ ("domain.removed", "hostname" ∷ [])
    ∷ ("token.created", "name" ∷ "keyId" ∷ [])
    ∷ ("token.revoked", "keyId" ∷ "count" ∷ "all" ∷ [])
    ∷ ("member.created", "userId" ∷ "username" ∷ "email" ∷ [])
    ∷ ("member.disabled", "userId" ∷ [])
    ∷ ("member.enabled", "userId" ∷ [])
    ∷ ("backup.created", "name" ∷ "sizeBytes" ∷ "encrypted" ∷ "offsite" ∷ [])
    ∷ ("backup.failed", "error" ∷ [])
    ∷ ("webhook.test", "webhookId" ∷ [])
    ∷ []

unfoldable pub event_types : List Text
event_types = map (λ entry. codes entry.0) vocabulary

abbrev pub system_owner : Text
system_owner = codes "system"

unfoldable pub is_event_type : Text → Bool
unfolding event_types
is_event_type value = Bag.has value event_types

unfoldable pub event_data_keys : Dict Text (List Text)
event_data_keys = map (λ entry. (codes entry.0, map codes entry.1)) vocabulary

-- `type.split(".")[0]`
unfoldable pub first_part : List Text → Text
first_part [] = []
first_part (part ∷ parts) = part

unfoldable pub distinct : List Text → List Text → List Text
distinct seen [] = seen
distinct seen (x ∷ xs) = distinct (Bag.add x seen) xs

unfoldable pub event_groups : List Text
unfolding distinct event_types first_part
event_groups = distinct [] (map (λ name. first_part (split 46 name) ++ codes ".*") event_types)

pub data TypeFilter : Type 0 where
  exact : Text → TypeFilter
  prefix : Text → TypeFilter

unfoldable pub ends_with : Text → Text → Bool
ends_with suffix [] = text_eq suffix []
ends_with suffix (c ∷ s) =
    let rest = ends_with suffix s in if text_eq (c ∷ s) suffix then true else rest

-- `.slice(0, -1)`
unfoldable pub drop_last : Text → Text
drop_last [] = []
drop_last (c ∷ []) = []
drop_last (c ∷ d ∷ s) = c ∷ drop_last (d ∷ s)

unfoldable pub parse_type_filter : Text → Option TypeFilter
unfolding is_event_type event_groups ends_with drop_last
parse_type_filter token =
    if is_event_type token
    then some (exact token)
    else if ends_with (codes ".*") token && Bag.has token event_groups
    then some (prefix (drop_last token))
    else none

unfoldable pub filter_matches : Text → TypeFilter → Bool
filter_matches name (exact value) = text_eq value name
filter_matches name (prefix value) = starts_with value name

unfoldable pub type_matches : List TypeFilter → Text → Bool
unfolding filter_matches
type_matches [] name = true
type_matches (filter ∷ filters) name = any (filter_matches name) (filter ∷ filters)

unfoldable pub parse_stored_filters : List Text → List TypeFilter
parse_stored_filters [] = []
parse_stored_filters (token ∷ tokens) =
    let rest = parse_stored_filters tokens in
    elim (parse_type_filter token) [ none ↦ rest | some filter ↦ filter ∷ rest ]

-- `EventValue`; a number is what JSON prints for it (NaN has no such text).
pub data EventValue : Type 0 where
  text : Text → EventValue
  number : Text → EventValue
  boolean : Bool → EventValue
  null : EventValue

unfoldable pub take_text : ℕ → Text → Text
take_text zero s = []
take_text (suc n) [] = []
take_text (suc n) (c ∷ s) = c ∷ take_text n s

unfoldable pub scrub_value : EventValue → EventValue
unfolding take_text
scrub_value (text value) =
    text (if ltb 500 (length value) then take_text 500 value ++ codes "..." else value)
scrub_value (number value) = number value
scrub_value (boolean value) = boolean value
scrub_value null = null

unfoldable pub scrub_keys :
    List Text → Dict Text EventValue → Dict Text EventValue → Dict Text EventValue
unfolding scrub_value
scrub_keys [] given out = out
scrub_keys (key ∷ keys) given out = scrub_keys keys given (elim (Dict.get key given) [
  | none ↦ out
  | some value ↦ Dict.insert key (scrub_value value) out
])

unfoldable pub allowed_keys : Text → List Text
unfolding event_data_keys
allowed_keys name = elim (Dict.get name event_data_keys) [ none ↦ [] | some keys ↦ keys ]

unfoldable pub scrub : Text → Dict Text EventValue → Dict Text EventValue
unfolding allowed_keys scrub_keys
scrub name given = scrub_keys (allowed_keys name) given []
