-- ===== src/Control/Store/Queries.antt =====
-- apps/control/src/store.ts: the counts and rollups that the API and the dashboard read.
-- localeCompare is an argument.
use sproutboat.Base.{
  ℕ, suc, Bool, true, ◌&&◌, none, some, List, [], ◌∷◌, ◌++◌, map, length, if◌then◌else◌, pair_eq,
}
use sproutboat.Base.Codes.{Text, text_eq, text_eq_inst}
use sproutboat.Base.Bag
use sproutboat.Base.Dict
use sproutboat.Base.Dict.{Dict}
use sproutboat.Base.Order.{keep, sort, text_leb}
use sproutboat.Control.Store.{Pair, Deployment, CustomDomain, Database}

unfoldable pub owner_project_count : Text → Database → ℕ
owner_project_count owner db = length (Dict.filter (λ key _. text_eq key.0 owner) db.projects)

pub record ProjectSummary : Type 0 where
  pub name : Text
  pub hostname : Text
  pub active_deployment_id : Text
  pub deployed_at : ℕ

unfoldable pub summary_of : Text × Deployment → ProjectSummary
summary_of (id, d) = record {
  name = d.project;
  hostname = d.hostname;
  active_deployment_id = id;
  deployed_at = d.deployed_at;
}

unfoldable pub active_projects : (Text → Text → Bool) → Text → Database → List ProjectSummary
unfolding summary_of
active_projects locale_leb owner db =
    sort (λ x y. locale_leb x.name y.name)
      (map summary_of (Dict.filter (λ _ d. text_eq d.owner_id owner && d.active) db.deployments))

-- The distinct texts of a column.
unfoldable pub distinct_of {ℓ} : {A : Type ℓ} → (A → Text) → List Text → List A → List Text
distinct_of column seen [] = seen
distinct_of column seen (row ∷ rows) = distinct_of column (Bag.add (column row) seen) rows

pub record GlobalStats : Type 0 where
  pub owners : ℕ
  pub projects : ℕ
  pub active_projects : ℕ
  pub deployments : ℕ
  pub artifacts : ℕ
  pub banned_owners : ℕ

unfoldable pub global_stats : Database → GlobalStats
unfolding distinct_of
global_stats db = record {
  owners = length (distinct_of (λ row. row.0.0) [] db.projects);
  projects = length db.projects;
  active_projects = length (Dict.filter (λ _ d. d.active) db.deployments);
  deployments = length db.deployments;
  artifacts = length db.artifacts;
  banned_owners = length db.banned_owners;
}

pub record OwnerRollup : Type 0 where
  pub owner_id : Text
  pub username : Text
  pub projects : ℕ
  pub deployments : ℕ
  pub active_projects : ℕ
  pub banned : Bool

-- MAX(username)
unfoldable pub max_username : Text → Dict Text Deployment → Text
max_username best [] = best
max_username best ((_, d) ∷ rows) =
    max_username (if text_leb best d.username then d.username else best) rows

unfoldable pub rollup_of : Database → Text → OwnerRollup
unfolding max_username distinct_of
rollup_of db owner =
    let rows = Dict.filter (λ _ d. text_eq d.owner_id owner) db.deployments in
    record {
      owner_id = owner;
      username = max_username [] rows;
      projects = length (distinct_of (λ row. row.1.project) [] rows);
      deployments = length rows;
      active_projects = length (keep (λ row. (row.1).active) rows);
      banned = Dict.has owner db.banned_owners;
    }

-- GROUP BY owner_id
unfoldable pub owner_rollups : Database → List OwnerRollup
unfolding rollup_of distinct_of
owner_rollups db =
    map (rollup_of db) (sort text_leb (distinct_of (λ row. row.1.owner_id) [] db.deployments))

-- COUNT(*) by project
unfoldable pub count_in : Text → Dict Text ℕ → Dict Text ℕ
count_in project counts = elim (Dict.get project counts) [
  | none ↦ Dict.insert project 1 counts
  | some n ↦ Dict.insert project (suc n) counts
]

unfoldable pub count_all : Dict Text ℕ → Dict Pair CustomDomain → Dict Text ℕ
unfolding count_in
count_all counts [] = counts
count_all counts ((_, domain) ∷ rows) = count_all (count_in domain.project counts) rows

unfoldable pub owner_domain_counts : Text → Database → Dict Text ℕ
unfolding count_all
owner_domain_counts owner db =
    count_all [] (Dict.filter (λ key _. text_eq key.1 owner) db.custom_domains)

-- The projects of the owner's deployments that a row of deployment_resources names, by the test
-- on its resource: the JOIN, as pairs of a resource and a project.
unfoldable pub bound_pairs : Text → (Text → Bool) → Database → Dict Pair (Unit {0}) → List Pair
bound_pairs owner wanted db [] = []
bound_pairs owner wanted db (((id, resource), _) ∷ links) =
    let rest = bound_pairs owner wanted db links in
    elim (Dict.get id db.deployments) [
      | none ↦ rest
      | some d ↦
          if wanted resource && text_eq d.owner_id owner
          then Bag.add (resource, d.project) rest
          else rest
    ]

unfoldable pub resource_referencing_projects : Text → Text → Database → List Text
unfolding bound_pairs
resource_referencing_projects owner resource db =
    sort text_leb (
      map (λ pair. pair.1) (bound_pairs owner (λ r. text_eq r resource) db db.deployment_resources))

unfoldable pub grouped : Dict Text (List Text) → List Pair → Dict Text (List Text)
grouped groups [] = groups
grouped groups ((resource, project) ∷ pairs) = elim (Dict.get resource groups) [
  | none ↦ grouped (Dict.insert resource (project ∷ []) groups) pairs
  | some projects ↦ grouped (Dict.insert resource (projects ++ project ∷ []) groups) pairs
]

unfoldable pub owner_resource_projects : Text → Database → Dict Text (List Text)
unfolding bound_pairs grouped
owner_resource_projects owner db =
    grouped []
      (sort (λ x y. text_leb x.1 y.1) (bound_pairs owner (λ _. true) db db.deployment_resources))
