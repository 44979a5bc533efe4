-- ===== src/Control/Deploys/Uploads.antt =====
-- apps/control/src/deployments.ts: names and hostnames, the guards on an upload, and the storage
-- bindings of an artifact. The digest of an artifact and the configured domain are arguments.
use sproutboat.Base.{
  ℕ, ◌+◌, ◌-◌, Bool, false, ◌&&◌, ◌||◌, not, all, Option, none, some, List, [], ◌∷◌, ◌++◌, length,
  ltb, leb, ◌==◌, if◌then◌else◌,
}
use sproutboat.Base.Codes.{Text, codes, text_eq, text_eq_inst}
use sproutboat.Base.Bag
use sproutboat.Base.Order.{first, slice}
use sproutboat.Base.Split.{split, starts_with, last}
use sproutboat.Control.Store.{ResourceKind, Database}
use sproutboat.Control.Store.Resources.{kind_text, resource_by_id}

-- [a-z0-9]
unfoldable pub is_alnum : ℕ → Bool
is_alnum c = leb 97 c && leb c 122 || leb 48 c && leb c 57

-- [a-z0-9-]
unfoldable pub is_label_char : ℕ → Bool
unfolding is_alnum
is_label_char c = is_alnum c || c == 45

-- /^[a-z0-9](?:[a-z0-9-]{1,30}[a-z0-9])?$/
unfoldable pub is_project_name : Text → Bool
unfolding is_alnum is_label_char
is_project_name [] = false
is_project_name (c ∷ []) = is_alnum c
is_project_name (c ∷ d ∷ rest) =
    is_alnum c
    && (all is_label_char (d ∷ rest)
        && (elim (last (d ∷ rest)) [ none ↦ false | some e ↦ is_alnum e ]
            && (leb 2 (length (d ∷ rest)) && leb (length (d ∷ rest)) 31)))

unfoldable pub deployment_hostname : Text → Text → Text → Text
deployment_hostname domain project username = (project ++ 46 ∷ username) ++ 46 ∷ domain

-- `slice(0, -suffix.length)` of a text that ends with the suffix
unfoldable pub strip_suffix : Text → Text → Option Text
strip_suffix suffix s =
    if ltb (length s) (length suffix)
    then none
    else if text_eq (slice (length s - length suffix) s) suffix
    then some (first (length s - length suffix) s)
    else none

unfoldable pub is_label : Text → Bool
unfolding is_label_char
is_label s = not (text_eq s []) && all is_label_char s

-- /^[a-z0-9-]+\.[a-z0-9-]+$/
unfoldable pub is_two_labels : List Text → Bool
unfolding is_label
is_two_labels (a ∷ b ∷ []) = is_label a && is_label b
is_two_labels _ = false

unfoldable pub is_deployment_hostname : Text → Text → Bool
unfolding strip_suffix is_two_labels
is_deployment_hostname domain hostname = elim (strip_suffix (46 ∷ domain) hostname) [
  | none ↦ false
  | some rest ↦ is_two_labels (split 46 rest)
]

-- The parts of an upload, by their sizes and names.
pub record Upload : Type 0 where
  pub manifest : Option ℕ
  pub sprout : Option ℕ
  pub bindings : Option ℕ
  pub assets_manifest : Option ℕ
  pub listed : Option (List Text)
  pub assets : List (Text × ℕ)

pub data UploadReply : Type 0 where
  missing_parts : UploadReply
  too_large : UploadReply
  too_many_assets : UploadReply
  bad_listing : UploadReply
  not_listed : Text → UploadReply
  accepted : UploadReply

unfoldable pub total_size : List (Text × ℕ) → ℕ
total_size [] = 0
total_size ((_, size) ∷ rest) = size + total_size rest

unfoldable pub is_over : ℕ → Option ℕ → Bool
is_over bound none = false
is_over bound (some size) = ltb bound size

unfoldable pub asset_key : Text → Text
asset_key name = if starts_with (codes "/") name then name else 47 ∷ name

unfoldable pub first_unlisted : List Text → List (Text × ℕ) → UploadReply
unfolding asset_key
first_unlisted keys [] = accepted
first_unlisted keys ((name, _) ∷ rest) =
    let later = first_unlisted keys rest in
    if Bag.has (asset_key name) keys then later else not_listed name

-- Without a listing no asset is listed; a listing that does not parse is refused.
unfoldable pub check_listing : Upload → UploadReply
unfolding first_unlisted
check_listing u = elim (u.assets_manifest) [
  | none ↦ first_unlisted [] u.assets
  | some _ ↦ elim (u.listed) [ none ↦ bad_listing | some keys ↦ first_unlisted keys u.assets ]
]

unfoldable pub check_sizes : Upload → ℕ → ℕ → UploadReply
unfolding is_over total_size check_listing
check_sizes u manifest sprout =
    if ltb 65536 manifest || ltb 16777216 sprout
    then too_large
    else if is_over 65536 u.bindings
    then too_large
    else if ltb 4096 (length u.assets)
    then too_many_assets
    else if ltb 67108864 (total_size u.assets)
    then too_large
    else if is_over 2097152 u.assets_manifest
    then too_large
    else check_listing u

-- `runDeploy`, up to the first file that it writes.
unfoldable pub check_upload : Upload → UploadReply
unfolding check_sizes
check_upload u = elim (u.manifest) [
  | none ↦ missing_parts
  | some manifest ↦ elim (u.sprout) [
    | none ↦ missing_parts
    | some sprout ↦ check_sizes u manifest sprout
  ]
]

pub record ResourceBindingRef : Type 0 where
  pub binding : Text
  pub kind : ResourceKind
  pub id : Text

pub data Resolution : Type 0 where
  resolved : List Text → Resolution
  no_resource : ResourceBindingRef → Resolution
  wrong_kind : ResourceBindingRef → ResourceKind → Resolution

-- `[...new Set(ids)]`, as the ids are pushed.
unfoldable pub resolve_from : List Text → Text → Database → List ResourceBindingRef → Resolution
resolve_from ids owner db [] = resolved ids
resolve_from ids owner db (ref ∷ refs) = elim (resource_by_id owner ref.id db) [
  | none ↦ no_resource ref
  | some resource ↦
      let rest = resolve_from (Bag.add ref.id ids) owner db refs in
      if text_eq (kind_text resource.kind) (kind_text ref.kind)
      then rest
      else wrong_kind ref resource.kind
]

unfoldable pub resolve_resource_bindings : Text → Database → List ResourceBindingRef → Resolution
unfolding resolve_from
resolve_resource_bindings owner db refs = resolve_from [] owner db refs
