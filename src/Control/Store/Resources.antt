-- ===== src/Control/Store/Resources.antt =====
-- apps/control/src/store.ts: the account's storage resources.
use sproutboat.Base.{
  ℕ, Bool, true, false, ◌&&◌, not, Option, none, some, [], length, if◌then◌else◌, pair_eq,
}
use sproutboat.Base.Codes.{Text, codes, text_eq, text_eq_inst}
use sproutboat.Base.Dict
use sproutboat.Base.Dict.{Dict}
use sproutboat.Base.Order.{sort, text_leb}
use sproutboat.Control.Store.{ResourceKind, kv, d1, r2, queue, StorageResource, Database}

unfoldable pub kind_text : ResourceKind → Text
kind_text kv = codes "kv"
kind_text d1 = codes "d1"
kind_text r2 = codes "r2"
kind_text queue = codes "queue"

-- ORDER BY kind, name
unfoldable pub resource_leb : Text × StorageResource → Text × StorageResource → Bool
unfolding kind_text
resource_leb (_, r) (_, s) =
    if text_eq (kind_text r.kind) (kind_text s.kind)
    then text_leb r.name s.name
    else text_leb (kind_text r.kind) (kind_text s.kind)

unfoldable pub owner_resources : Text → Database → Dict Text StorageResource
unfolding resource_leb
owner_resources owner db =
    sort resource_leb (Dict.filter (λ _ r. text_eq r.owner_id owner) db.resources)

unfoldable pub resource_by_id : Text → Text → Database → Option StorageResource
resource_by_id owner id db = Dict.passing (λ r. text_eq r.owner_id owner) (Dict.get id db.resources)

unfoldable pub resource_count : Text → Database → ℕ
resource_count owner db = length (Dict.filter (λ _ r. text_eq r.owner_id owner) db.resources)

-- The resources of a version: the JOIN over its links.
unfoldable pub linked_to : Text → Database → Text → StorageResource → Bool
linked_to deployment db id r = Dict.has (deployment, id) db.deployment_resources

unfoldable pub deployment_resources : Text → Text → Database → Dict Text StorageResource
unfolding linked_to resource_leb
deployment_resources owner deployment db =
    elim (Dict.passing (λ d. text_eq d.owner_id owner) (Dict.get deployment db.deployments)) [
      | none ↦ []
      | some _ ↦ sort resource_leb (
          Dict.filter (λ id r. text_eq r.owner_id owner && linked_to deployment db id r)
            db.resources)
    ]

-- What the unique index `resource_name_per_owner_kind` forbids.
unfoldable pub name_taken : Text → Text → ResourceKind → Text → Dict Text StorageResource → Bool
unfolding kind_text
name_taken id owner kind name table =
    Dict.exists
      (λ j r.
        not (text_eq j id)
        && (text_eq r.owner_id owner
            && (text_eq (kind_text r.kind) (kind_text kind) && text_eq r.name name)))
      table

-- `createResource`, with the id that its random bytes make.
unfoldable pub create_resource : Text → Text → ResourceKind → Text → ℕ → Database → Option Database
unfolding name_taken
create_resource id owner kind name clock db =
    if Dict.has id db.resources
    then none
    else if name_taken id owner kind name db.resources
    then none
    else some (record db {
      resources =
          Dict.insert id (record { owner_id = owner; kind = kind; name = name; created_at = clock })
            db.resources;
    })

unfoldable pub rename_resource : Text → Text → Text → Database → Option (Database × Bool)
unfolding resource_by_id name_taken
rename_resource owner id name db = elim (resource_by_id owner id db) [
  | none ↦ some (db, false)
  | some r ↦
      if name_taken id r.owner_id r.kind name db.resources
      then none
      else some
          (record db { resources = Dict.insert id (record r { name = name }) db.resources }, true)
]

unfoldable pub delete_resource : Text → Text → Database → Database × Bool
unfolding resource_by_id
delete_resource owner id db = elim (resource_by_id owner id db) [
  | none ↦ (db, false)
  | some _ ↦ (record db { resources = Dict.delete id db.resources }, true)
]
