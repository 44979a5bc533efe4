-- ===== src/Control/Store/Deployments.antt =====
-- apps/control/src/store.ts: the versions of a project, which of them is active, and the
-- artifacts that nothing references any more.
use sproutboat.Base.{
  ℕ, ltb, leb, Bool, true, ◌&&◌, not, Option, none, some, List, [], ◌∷◌, ◌++◌, map, length,
  if◌then◌else◌, pair_eq,
}
use sproutboat.Base.Codes.{Text, text_eq, text_eq_inst}
use sproutboat.Base.Bag
use sproutboat.Base.Dict
use sproutboat.Base.Dict.{Dict}
use sproutboat.Base.Order.{slice, sort}
use sproutboat.Control.Store.{
  Pair, Deployment, Database, belongs, references, ref_of, insert_new, insert_deployment,
  set_active, set_inactive, drop_deployments, drop_projects,
}

-- `${ownerId}\0${digest}`
unfoldable pub joined_key : Pair → Text
joined_key (owner, digest) = owner ++ 0 ∷ digest

unfoldable pub is_referenced : Pair → Database → Bool
unfolding references
is_referenced ref db = Dict.exists (λ _ d. references ref d) db.deployments

unfoldable pub orphaned_unseen : List Text → Database → List Pair → List Pair
unfolding joined_key is_referenced
orphaned_unseen seen db [] = []
orphaned_unseen seen db (ref ∷ refs) =
    let rest = orphaned_unseen (Bag.add (joined_key ref) seen) db refs in
    if Bag.has (joined_key ref) seen
    then rest
    else if Dict.has ref db.artifacts && not (is_referenced ref db)
    then ref ∷ rest
    else rest

unfoldable pub orphaned_among : List Pair → Database → List Pair
unfolding orphaned_unseen
orphaned_among refs db = orphaned_unseen [] db refs

-- ORDER BY deployed_at DESC
abbrev pub newer : Text × Deployment → Text × Deployment → Bool
newer x y = leb y.1.deployed_at x.1.deployed_at

unfoldable pub owner_deployments : Text → Database → Dict Text Deployment
owner_deployments owner db =
    sort newer (Dict.filter (λ _ d. text_eq d.owner_id owner) db.deployments)

unfoldable pub project_deployments : Text → Text → Database → Dict Text Deployment
unfolding belongs
project_deployments owner project db =
    sort newer (Dict.filter (λ _ d. belongs owner project d) db.deployments)

unfoldable pub project_deployment : Text → Text → Text → Database → Option Deployment
unfolding belongs
project_deployment owner project id db =
    Dict.passing (λ d. belongs owner project d) (Dict.get id db.deployments)

-- `pruneProjectDeployments`: the inactive versions after the newest `keep` ones.
unfoldable pub doomed_versions : Text → Text → ℕ → Database → Dict Text Deployment
unfolding project_deployments
doomed_versions owner project kept db =
    slice kept (Dict.filter (λ _ d. not d.active) (project_deployments owner project db))

unfoldable pub delete_rows : Dict Text Deployment → Database → Database
unfolding drop_deployments
delete_rows [] db = db
delete_rows ((id, _) ∷ rows) db = delete_rows rows (drop_deployments (λ j _. text_eq j id) db)

unfoldable pub prune_project_deployments : Text → Text → ℕ → Database → Database × List Pair
unfolding doomed_versions delete_rows orphaned_among
prune_project_deployments owner project kept db =
    if ltb kept 1
    then (db, [])
    else (let doomed = doomed_versions owner project kept db in
        let pruned = delete_rows doomed db in
        (pruned, orphaned_among (map (λ row. ref_of row.1) doomed) pruned))

unfoldable pub link_resources : Text → List Text → Database → Database
link_resources id [] db = db
link_resources id (resource ∷ rest) db =
    link_resources id rest
      (record db { deployment_resources = insert_new (id, resource) tt db.deployment_resources })

-- `recordDeployment`: the input's `active` is set.
unfoldable pub record_deployment :
    Text → Deployment → List Text → Database → Option (Database × Deployment)
unfolding insert_new insert_deployment set_inactive link_resources
record_deployment id input resource_ids db =
    let d = record input { active = true } in
    let with_parents = record db {
      projects =
          insert_new (d.owner_id, d.project)
            (record { username = d.username; created_at = d.deployed_at }) db.projects;
      artifacts = insert_new (ref_of d) d.deployed_at db.artifacts;
    } in
    elim (insert_deployment id d (set_inactive d.owner_id d.project with_parents)) [
      | none ↦ none
      | some inserted ↦ some (link_resources id resource_ids inserted, d)
    ]

unfoldable pub activate_deployment :
    Text → Text → Text → Database → Option (Database × Option Deployment)
unfolding project_deployment set_active set_inactive
activate_deployment owner project id db = elim (project_deployment owner project id db) [
  | none ↦ some (db, none)
  | some target ↦ elim (set_active id (set_inactive owner project db)) [
    | none ↦ none
    | some activated ↦ some (activated, some (record target { active = true }))
  ]
]

pub record ProjectDeletion : Type 0 where
  pub removed : ℕ
  pub hostnames : List Text
  pub orphaned_artifacts : List Pair

-- `[...new Set(hostnames)]`
unfoldable pub hostname_set : List Text → Dict Text Deployment → List Text
hostname_set seen [] = seen
hostname_set seen ((_, d) ∷ rows) = hostname_set (Bag.add d.hostname seen) rows

unfoldable pub deletion_of : Dict Text Deployment → Database → ProjectDeletion
unfolding hostname_set orphaned_among
deletion_of rows db = record {
  removed = length rows;
  hostnames = hostname_set [] rows;
  orphaned_artifacts = orphaned_among (map (λ row. ref_of row.1) rows) db;
}

unfoldable pub delete_project : Text → Text → Database → Database × ProjectDeletion
unfolding belongs drop_projects deletion_of
delete_project owner project db =
    let rows = Dict.filter (λ _ d. belongs owner project d) db.deployments in
    let dropped = drop_projects (λ key. text_eq key.0 owner && text_eq key.1 project) db in
    (dropped, deletion_of rows dropped)

unfoldable pub delete_owner : Text → Database → Database × ProjectDeletion
unfolding drop_projects deletion_of
delete_owner owner db =
    let rows = Dict.filter (λ _ d. text_eq d.owner_id owner) db.deployments in
    let dropped = drop_projects (λ key. text_eq key.0 owner) db in
    let emptied = record dropped {
      resources = Dict.filter (λ _ r. not (text_eq r.owner_id owner)) dropped.resources;
    } in
    (emptied, deletion_of rows emptied)

pub data DeploymentDeletion : Type 0 where
  refused_active : DeploymentDeletion
  deleted : List Pair → DeploymentDeletion

unfoldable pub delete_deployment :
    Text → Text → Text → Database → Database × Option DeploymentDeletion
unfolding project_deployment drop_deployments orphaned_among
delete_deployment owner project id db = elim (project_deployment owner project id db) [
  | none ↦ (db, none)
  | some row ↦
      if row.active
      then (db, some refused_active)
      else (let dropped = drop_deployments (λ j _. text_eq j id) db in
          (dropped, some (deleted (orphaned_among (ref_of row ∷ []) dropped))))
]

unfoldable pub ban_owner : Text → ℕ → Database → Database
ban_owner owner clock db =
    if Dict.has owner db.banned_owners
    then db
    else record db { banned_owners = Dict.insert owner clock db.banned_owners }

unfoldable pub unban_owner : Text → Database → Database
unban_owner owner db = record db { banned_owners = Dict.delete owner db.banned_owners }
