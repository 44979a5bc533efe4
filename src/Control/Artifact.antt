-- ===== src/Control/Artifact.antt =====
-- apps/control/src/artifact.ts: what bindings.json may hold and what is read from it. `none` is
-- the text that JSON.parse refuses.
mod Tests
pub mod Kept
pub mod Whole
use sproutboat.Base.{
  Bool, true, false, ◌&&◌, Option, none, some, List, [], ◌∷◌, ◌++◌, all, if◌then◌else◌, map,
}
use sproutboat.Base.Codes.{Text, codes, text_eq, text_eq_inst}
use sproutboat.Base.Dict
use sproutboat.Base.Dict.{Dict}
use sproutboat.Base.Json.{
  Json, null, boolean, natural, number, string, array, object, as_object, as_array, as_string,
  at_key, items, fields,
}
use sproutboat.Control.Store.{ResourceKind, kv, d1, r2, queue}
use sproutboat.Control.Deploys.Uploads.{ResourceBindingRef}

unfoldable pub kind_of : Text → Option ResourceKind
kind_of s =
    if text_eq s (codes "kv")
    then some kv
    else if text_eq s (codes "d1")
    then some d1
    else if text_eq s (codes "r2")
    then some r2
    else if text_eq s (codes "queue")
    then some queue
    else none

unfoldable pub is_some {ℓ} : {A : Type ℓ} → Option A → Bool
is_some none = false
is_some (some x) = true

unfoldable pub is_str : Option Json → Bool
unfolding is_some as_string
is_str value = is_some (as_string value)

unfoldable pub all_str : List Json → Bool
unfolding is_str
all_str [] = true
all_str (x ∷ xs) = is_str (some x) && all_str xs

unfoldable pub is_str_array : Json → Bool
unfolding as_array all_str
is_str_array value = elim (as_array (some value)) [ none ↦ false | some xs ↦ all_str xs ]

-- `Object.values(...).every(...)`
unfoldable pub all_values : (Json → Bool) → Dict Text Json → Bool
all_values test [] = true
all_values test ((_, value) ∷ entries) = test value && all_values test entries

unfoldable pub is_str_map : Json → Bool
unfolding as_object all_values is_str
is_str_map value = elim (as_object (some value)) [
  | none ↦ false
  | some entries ↦ all_values (λ v. is_str (some v)) entries
]

unfoldable pub is_durable_object : Json → Bool
unfolding is_str at_key
is_durable_object entry =
    is_str (at_key (codes "binding") (some entry))
    && is_str (at_key (codes "className") (some entry))

unfoldable pub all_durable : List Json → Bool
unfolding is_durable_object
all_durable [] = true
all_durable (x ∷ xs) = is_durable_object x && all_durable xs

unfoldable pub is_do_array : Json → Bool
unfolding as_array all_durable
is_do_array value = elim (as_array (some value)) [ none ↦ false | some xs ↦ all_durable xs ]

unfoldable pub is_kind : Option Text → Bool
unfolding kind_of is_some
is_kind none = false
is_kind (some s) = is_some (kind_of s)

unfoldable pub is_resource_entry : Json → Bool
unfolding is_str at_key as_string is_kind
is_resource_entry entry =
    let kind = at_key (codes "kind") (some entry) in
    is_str (at_key (codes "id") (some entry)) && (is_str kind && is_kind (as_string kind))

unfoldable pub is_resource_map : Json → Bool
unfolding as_object all_values is_resource_entry
is_resource_map value = elim (as_object (some value)) [
  | none ↦ false
  | some entries ↦ all_values is_resource_entry entries
]

pub data BindingsIssue : Type 0 where
  not_an_object : BindingsIssue
  not_strings : Text → BindingsIssue
  bad_assets : BindingsIssue
  bad_vars : BindingsIssue
  bad_do : BindingsIssue
  bad_resources : BindingsIssue

-- The issue of a key that is there and fails its test.
unfoldable pub issue_at : Text → (Json → Bool) → BindingsIssue → Dict Text Json → List BindingsIssue
issue_at key test issue entries = elim (Dict.get key entries) [
  | none ↦ []
  | some value ↦ if test value then [] else issue ∷ []
]

abbrev pub name_keys : List Text
name_keys =
    codes "kv"
    ∷ codes "secrets"
    ∷ codes "d1"
    ∷ codes "r2"
    ∷ codes "queues"
    ∷ codes "analytics"
    ∷ codes "crons"
    ∷ []

unfoldable pub name_issues : List Text → Dict Text Json → List BindingsIssue
unfolding issue_at is_str_array
name_issues [] entries = []
name_issues (key ∷ keys) entries =
    issue_at key is_str_array (not_strings key) entries ++ name_issues keys entries

unfoldable pub entry_issues : Dict Text Json → List BindingsIssue
unfolding name_issues issue_at is_str is_str_map is_do_array is_resource_map
entry_issues entries =
    name_issues name_keys entries
    ++ (issue_at (codes "assets") (λ v. is_str (some v)) bad_assets entries
        ++ (issue_at (codes "vars") is_str_map bad_vars entries
            ++ (issue_at (codes "do") is_do_array bad_do entries
                ++ issue_at (codes "resources") is_resource_map bad_resources entries)))

unfoldable pub bindings_errors : Option Json → List BindingsIssue
unfolding as_object entry_issues
bindings_errors value = elim (as_object value) [
  | none ↦ not_an_object ∷ []
  | some entries ↦ entry_issues entries
]

unfoldable pub ref_of : Text → Json → Option ResourceBindingRef
unfolding at_key as_string kind_of
ref_of binding entry = elim (as_string (at_key (codes "id") (some entry))) [
  | none ↦ none
  | some id ↦ elim (as_string (at_key (codes "kind") (some entry))) [
    | none ↦ none
    | some name ↦ elim (kind_of name) [
      | none ↦ none
      | some kind ↦ some (record { binding = binding; kind = kind; id = id })
    ]
  ]
]

unfoldable pub refs_of : Dict Text Json → List ResourceBindingRef
unfolding ref_of
refs_of [] = []
refs_of ((binding, entry) ∷ entries) = elim (ref_of binding entry) [
  | none ↦ refs_of entries
  | some ref ↦ ref ∷ refs_of entries
]

unfoldable pub resource_bindings_of : Option Json → List ResourceBindingRef
unfolding as_object at_key refs_of
resource_bindings_of value = elim (as_object (at_key (codes "resources") value)) [
  | none ↦ []
  | some entries ↦ refs_of entries
]

-- `vars[name] = item`, which the name `__proto__` makes no property.
unfoldable pub set_var : Text → Text → Dict Text Text → Dict Text Text
set_var name item vars =
    if text_eq name (codes "__proto__") then vars else Dict.insert name item vars

unfoldable pub vars_from : Dict Text Json → Dict Text Text → Dict Text Text
unfolding set_var as_string
vars_from [] vars = vars
vars_from ((name, item) ∷ entries) vars =
    vars_from entries (elim (as_string (some item)) [ none ↦ vars | some s ↦ set_var name s vars ])

unfoldable pub vars_of : Option Json → Dict Text Text
unfolding as_object at_key vars_from
vars_of value = elim (as_object (at_key (codes "vars") value)) [
  | none ↦ []
  | some entries ↦ vars_from entries []
]

pub record DurableObject : Type 0 where
  pub binding : Text
  pub class_name : Text

pub record ArtifactBindings : Type 0 where
  pub kv : List Text
  pub secrets : List Text
  pub d1 : List Text
  pub r2 : List Text
  pub queues : List Text
  pub analytics : List Text
  pub crons : List Text
  pub assets : Option Text
  pub durable_objects : List DurableObject
  pub resources : List ResourceBindingRef
  pub vars : Dict Text Text

unfoldable pub texts : List Json → List Text
unfolding as_string
texts [] = []
texts (x ∷ xs) = elim (as_string (some x)) [ none ↦ texts xs | some s ↦ s ∷ texts xs ]

-- `names`, of a value that may be a list of strings.
unfoldable pub names : Text → Option Json → List Text
unfolding at_key as_array all_str texts
names key value = elim (as_array (at_key key value)) [
  | none ↦ []
  | some xs ↦ if all_str xs then texts xs else []
]

unfoldable pub durable_object : Json → Option DurableObject
unfolding at_key as_string
durable_object entry = elim (as_string (at_key (codes "binding") (some entry))) [
  | none ↦ none
  | some binding ↦ elim (as_string (at_key (codes "className") (some entry))) [
    | none ↦ none
    | some class ↦ some (record { binding = binding; class_name = class })
  ]
]

unfoldable pub durables : List Json → List DurableObject
unfolding durable_object
durables [] = []
durables (x ∷ xs) = elim (durable_object x) [ none ↦ durables xs | some d ↦ d ∷ durables xs ]

unfoldable pub durable_objects_of : Option Json → List DurableObject
unfolding as_array at_key durables
durable_objects_of value = elim (as_array (at_key (codes "do") value)) [
  | none ↦ []
  | some xs ↦ durables xs
]

unfoldable pub bindings_of : Option Json → ArtifactBindings
unfolding names durable_objects_of resource_bindings_of vars_of at_key as_string
bindings_of value = record {
  kv = names (codes "kv") value;
  secrets = names (codes "secrets") value;
  d1 = names (codes "d1") value;
  r2 = names (codes "r2") value;
  queues = names (codes "queues") value;
  analytics = names (codes "analytics") value;
  crons = names (codes "crons") value;
  assets = as_string (at_key (codes "assets") value);
  durable_objects = durable_objects_of value;
  resources = resource_bindings_of value;
  vars = vars_of value;
}

-- `Object.keys(parsed.files)`
unfoldable pub listed_asset_keys : Option Json → Option (List Text)
unfolding as_object at_key
listed_asset_keys parsed = elim (as_object (at_key (codes "files") parsed)) [
  | none ↦ none
  | some files ↦ some (map (λ (f : Text × Json). f.0) files)
]
