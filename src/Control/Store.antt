-- ===== src/Control/Store.antt =====
-- apps/control/src/store.ts: the tables, and the constraints that SQLite holds them to. A table is
-- a map from its primary key, `active` 1 or 0 a Boolean, an ISO time its milliseconds. A
-- statement or transaction that throws leaves nothing: it returns `none`.
mod Tests
pub mod Deployments
pub mod Queries
pub mod Resources
pub mod Routes
pub mod Artifacts
pub mod Switching
pub mod Valid
pub mod Promotion
pub mod Ownership
pub mod Claims
pub mod Collecting
pub mod Kept
pub mod Reach
pub mod Serving
pub mod Pruning
pub mod Releases
pub mod Refine
pub mod Refinement
pub mod Promised
pub mod Domains
use sproutboat.Base.{
  ℕ, ◌+◌, Bool, true, false, ◌&&◌, ◌||◌, not, Option, none, some, List, [], ◌∷◌, ◌++◌, map,
  if◌then◌else◌, pair_eq,
}
use sproutboat.Base.Codes.{Text, text_eq, text_eq_inst}
use sproutboat.Base.Bag
use sproutboat.Base.Dict
use sproutboat.Base.Dict.{Dict}

-- An owner with a digest, or with a project's name; a hostname with its claimant.
abbrev pub Pair : Type 0
Pair = Text × Text

pub record Project : Type 0 where
  pub username : Text
  pub created_at : ℕ

pub record Deployment : Type 0 where
  pub owner_id : Text
  pub project : Text
  pub username : Text
  pub hostname : Text
  pub artifact : Text
  pub sprout_path : Text
  pub deployed_at : ℕ
  pub active : Bool
  pub binary_size : Option ℕ
  pub compile_ms : Option ℕ

pub record CustomDomain : Type 0 where
  pub project : Text
  pub token : Text
  pub verified_at : Option ℕ
  pub created_at : ℕ

pub record Secret : Type 0 where
  pub ciphertext : Text
  pub updated_at : ℕ

pub data ResourceKind : Type 0 where
  kv : ResourceKind
  d1 : ResourceKind
  r2 : ResourceKind
  queue : ResourceKind

pub record StorageResource : Type 0 where
  pub owner_id : Text
  pub kind : ResourceKind
  pub name : Text
  pub created_at : ℕ

pub record Database : Type 0 where
  pub artifacts : Dict Pair ℕ
  pub projects : Dict Pair Project
  pub deployments : Dict Text Deployment
  pub banned_owners : Dict Text ℕ
  pub custom_domains : Dict Pair CustomDomain
  pub secrets : Dict (Pair × Text) Secret
  pub resources : Dict Text StorageResource
  pub deployment_resources : Dict Pair (Unit {0})

-- WHERE owner_id = ? AND project = ?
unfoldable pub belongs : Text → Text → Deployment → Bool
belongs owner project d = text_eq d.owner_id owner && text_eq d.project project

-- WHERE owner_id = ? AND artifact_digest = ?
unfoldable pub references : Pair → Deployment → Bool
references (owner, digest) d = text_eq d.owner_id owner && text_eq d.artifact digest

abbrev pub ref_of : Deployment → Pair
ref_of d = (d.owner_id, d.artifact)

abbrev pub home : Deployment → Pair
home d = (d.owner_id, d.project)

-- INSERT OR IGNORE
unfoldable pub insert_new {ℓ} : {V : Type ℓ} → Pair → V → Dict Pair V → Dict Pair V
insert_new key v table = if Dict.has key table then table else Dict.insert key v table

-- The active version that the unique index `one_active_deployment_per_project` would meet.
unfoldable pub meets_active : Text → Deployment → Dict Text Deployment → Bool
unfolding belongs
meets_active id d table =
    Dict.exists (λ j e. not (text_eq j id) && (e.active && belongs d.owner_id d.project e)) table

-- INSERT INTO deployments, with its primary key, its foreign keys and the unique index.
unfoldable pub insert_deployment : Text → Deployment → Database → Option Database
unfolding meets_active
insert_deployment id d db =
    if Dict.has id db.deployments
    then none
    else if not (Dict.has (ref_of d) db.artifacts && Dict.has (home d) db.projects)
    then none
    else if d.active && meets_active id d db.deployments
    then none
    else some (record db { deployments = Dict.insert id d db.deployments })

-- UPDATE deployments SET active = 1 WHERE id = ?
unfoldable pub set_active : Text → Database → Option Database
unfolding meets_active
set_active id db = elim (Dict.get id db.deployments) [
  | none ↦ some db
  | some d ↦
      if meets_active id d db.deployments
      then none
      else some
          (record db { deployments = Dict.insert id (record d { active = true }) db.deployments })
]

-- UPDATE deployments SET active = 0 WHERE owner_id = ? AND project = ?
unfoldable pub set_inactive : Text → Text → Database → Database
unfolding belongs
set_inactive owner project db = record db {
  deployments =
      Dict.update (λ _ d. if belongs owner project d then record d { active = false } else d)
        db.deployments;
}

-- A link to a deployment that a `DELETE` takes goes with it.
unfoldable pub outlives : (Text → Deployment → Bool) → Dict Text Deployment → Pair → Bool
outlives doomed table (id, resource) = elim (Dict.get id table) [
  | none ↦ true
  | some d ↦ not (doomed id d)
]

-- DELETE FROM deployments, with its cascade.
unfoldable pub drop_deployments : (Text → Deployment → Bool) → Database → Database
unfolding outlives
drop_deployments doomed db = record db {
  deployments = Dict.filter (λ id d. not (doomed id d)) db.deployments;
  deployment_resources =
      Dict.filter (λ link _. outlives doomed db.deployments link) db.deployment_resources;
}

-- DELETE FROM projects, with its cascades to deployments, custom domains and secrets.
unfoldable pub drop_projects : (Pair → Bool) → Database → Database
unfolding drop_deployments
drop_projects doomed db =
    let dropped = drop_deployments (λ _ d. doomed (home d)) db in
    record dropped {
      projects = Dict.filter (λ key _. not (doomed key)) db.projects;
      custom_domains =
          Dict.filter (λ key domain. not (doomed (key.1, domain.project))) db.custom_domains;
      secrets = Dict.filter (λ key _. not (doomed key.0)) db.secrets;
    }
