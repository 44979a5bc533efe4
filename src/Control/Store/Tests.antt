-- ===== src/Control/Store/Tests.antt =====
-- apps/control/src/store.ts: runs of the store, and the theorems at inputs.
use sproutboat.Base.{
  ℕ, ◌≡◌, ◌↔◌, refl, true, false, Option, none, some, List, [], ◌∷◌, length, inr, arith, pair_eq,
}
use mathlib.Core.Option
use sproutboat.Base.Codes.{Text, codes, text_eq, text_eq_inst}
use sproutboat.Base.Bag
use sproutboat.Base.Dict
use sproutboat.Base.Dict.{Dict}
use sproutboat.Base.Order.{put, sort, slice, first, keep, text_leb}
use sproutboat.Control.Store.{
  Deployment, CustomDomain, Database, belongs, references, home, insert_new, meets_active,
  insert_deployment, set_active, set_inactive, outlives, drop_deployments, drop_projects,
}
use sproutboat.Control.Store.Deployments.{
  joined_key, is_referenced, orphaned_unseen, orphaned_among, project_deployments,
  project_deployment, doomed_versions, delete_rows, prune_project_deployments, link_resources,
  record_deployment, activate_deployment, hostname_set, deletion_of, delete_project,
  delete_deployment, ban_owner,
}
use sproutboat.Control.Store.Domains.{
  is_verified, claim_is_stale, drop_stale_claims, has_verified, claim_custom_domain, open_claim,
  mark_custom_domain_verified, verified_elsewhere,
}
use sproutboat.Control.Store.Routes.{RouteRow, row_of, points_at, serves, domain_rows, route_rows}
use sproutboat.Control.Store.Artifacts.{
  artifact_in_flight, is_hex, is_digest, drop_row, collect_one, collect_unseen, collect_artifacts,
  Disk,
}
use sproutboat.Control.Store.Switching.{
  switched, record_deployment_iff, activate_deployment-switched,
}
use sproutboat.Control.Store.Claims.{claim_custom_domain-verified}
use sproutboat.Control.Store.Collecting.{collect_artifacts-Stays}
use sproutboat.Control.Store.Kept.{IsSound}
use sproutboat.Control.Store.Reach.{
  Reach, here, next, recorded_version, claimed, verified, no_rows, Reach-IsSound,
}
use sproutboat.Control.Store.Serving.{IsServed, route_rows_iff}
use sproutboat.Control.Store.Pruning.{Prunes, prune_project_deployments-Prunes}
use sproutboat.Control.Store.Releases.{
  Releases, Operation, record_version, activate_version, promises, tables, perform, perform_all,
  Implements,
}
use sproutboat.Control.Store.Promised.{perform_all-Implements}

store : Unit {0}
unfolding belongs references insert_new meets_active insert_deployment set_active set_inactive
    outlives drop_deployments drop_projects joined_key is_referenced orphaned_unseen orphaned_among
    project_deployments project_deployment doomed_versions delete_rows prune_project_deployments
    link_resources record_deployment activate_deployment hostname_set deletion_of delete_project
    delete_deployment ban_owner is_verified claim_is_stale drop_stale_claims has_verified
    claim_custom_domain open_claim mark_custom_domain_verified points_at serves domain_rows
    route_rows artifact_in_flight is_hex is_digest drop_row collect_one collect_unseen
    collect_artifacts perform perform_all put sort slice first keep text_leb Dict.get Dict.has
    Dict.insert Dict.delete Dict.filter Dict.update Dict.exists Bag.has Bag.add Bag.delete
    Bag.collect text_eq
store = tt

abbrev alice : Text
alice = codes "a"

abbrev app : Text
app = codes "p"

abbrev version : Text → ℕ → Deployment
version artifact clock = record {
  owner_id = alice;
  project = app;
  username = alice;
  hostname = codes "p.a";
  artifact = artifact;
  sprout_path = codes "s";
  deployed_at = clock;
  active = false;
  binary_size = none;
  compile_ms = none;
}

abbrev kept_tables : Option Database → Database
kept_tables none = no_rows
kept_tables (some db) = db

abbrev one_version : Database
one_version =
    kept_tables (tables (record_deployment (codes "1") (version (codes "x") 10) [] no_rows))

abbrev two_versions : Database
two_versions =
    kept_tables (tables (record_deployment (codes "2") (version (codes "y") 20) [] one_version))

path_two : Reach no_rows two_versions
unfolding store
path_two =
    next (next here (recorded_version (codes "1") (version (codes "x") 10) [] one_version _ refl))
      (recorded_version (codes "2") (version (codes "y") 20) [] two_versions _ refl)

abbrev host : Text
host = codes "h"

abbrev claimed_host : Database
claimed_host = kept_tables (tables (claim_custom_domain host alice app (codes "t") 30 two_versions))

abbrev verified_host : Database
verified_host = (mark_custom_domain_verified alice app host 40 claimed_host).0

path_verified : Reach no_rows verified_host
unfolding store
path_verified =
    next (next path_two (claimed host alice app (codes "t") 30 claimed_host _ refl))
      (verified alice app host 40)

switching_tests :
    (tables (record_deployment (codes "1") (version (codes "z") 50) [] one_version) ≡ none)
    × (Option.map home (project_deployment alice app (codes "2") two_versions) ≡ some (alice, app))
    × ((delete_deployment alice app (codes "2") two_versions).0 ≡ two_versions)
    × (length (prune_project_deployments alice app 1 two_versions).0.deployments ≡ 2)
    × ((delete_project alice app two_versions).0.deployments ≡ [])
unfolding store
switching_tests = (refl, refl, refl, refl, refl)

route_tests :
    (route_rows verified_host
      ≡ ((host, codes "s"), (alice, app)) ∷ ((codes "p.a", codes "s"), (alice, app)) ∷ [])
    × (route_rows (ban_owner alice 50 verified_host) ≡ [])
unfolding store
route_tests = (refl, refl)

Reach-IsSound_example : IsSound verified_host
Reach-IsSound_example = Reach-IsSound path_verified

record_deployment_iff_example :
    (record_deployment (codes "1") (version (codes "z") 50) [] two_versions ≡ none)
    ↔ (Dict.has (codes "1") two_versions.deployments ≡ true)
record_deployment_iff_example =
    record_deployment_iff (codes "1") (version (codes "z") 50) [] two_versions

abbrev first_version : Deployment
first_version = version (codes "x") 10

found_first : project_deployment alice app (codes "1") two_versions ≡ some first_version
unfolding store
found_first = refl

activate_deployment-switched_example :
    (after : Database) × (activate_deployment alice app (codes "1") two_versions
      ≡ some (after, some (record first_version { active = true })))
    × ((j : Text)
        → Dict.get j after.deployments
          ≡ Option.map (switched alice app (codes "1") j) (Dict.get j two_versions.deployments))
activate_deployment-switched_example =
    activate_deployment-switched alice app (codes "1") first_version two_versions found_first

abbrev three_versions : Database
three_versions =
    kept_tables (tables (record_deployment (codes "3") (version (codes "x") 30) [] two_versions))

path_three : Reach no_rows three_versions
unfolding store
path_three =
    next path_two (recorded_version (codes "3") (version (codes "x") 30) [] three_versions _ refl)

pruned_test : length (prune_project_deployments alice app 1 three_versions).0.deployments ≡ 2
unfolding store
pruned_test = refl

prune_project_deployments-Prunes_example :
    (survivors : Dict Text Deployment) × Prunes alice app 1 three_versions
      (prune_project_deployments alice app 1 three_versions).0
      survivors
prune_project_deployments-Prunes_example =
    prune_project_deployments-Prunes alice app 1 three_versions (Reach-IsSound path_three).valid
      (omega arith)

abbrev domain : CustomDomain
domain = record { project = app; token = codes "t"; verified_at = some 40; created_at = 30 }

found_domain : Dict.get (host, alice) verified_host.custom_domains ≡ some domain
unfolding store
found_domain = refl

domain_verified : is_verified domain ≡ true
unfolding store
domain_verified = refl

claim_custom_domain-verified_example :
    (after : Database) × (claim_custom_domain host
        (codes "b")
        (codes "q")
        (codes "u")
        99999999999
        verified_host
      ≡ some (after, verified_elsewhere))
    × (Dict.get (host, alice) after.custom_domains ≡ some domain)
    × (mark_custom_domain_verified (codes "b") (codes "q") host 99999999999 verified_host
        ≡ (verified_host, false))
claim_custom_domain-verified_example =
    claim_custom_domain-verified host alice (codes "b") (codes "q") (codes "u") 99999999999 domain
      verified_host (Reach-IsSound path_verified).owned found_domain domain_verified

-- Directories by the owner's own name.
abbrev own_dir : Text → Text
own_dir owner = owner

abbrev disk : Disk
disk = ((alice, codes "x"), tt) ∷ []

used_artifact : is_referenced (alice, codes "x") one_version ≡ true
unfolding store
used_artifact = refl

collect_artifacts-Stays_example :
    (Dict.get
        (alice, codes "x")
        (collect_artifacts own_dir (λ _. true) [] ((alice, codes "x") ∷ []) one_version disk).disk
      ≡ Dict.get (alice, codes "x") disk)
    × (Dict.get
          (alice, codes "x")
          (collect_artifacts own_dir
            (λ _. true)
            []
            ((alice, codes "x") ∷ [])
            one_version
            disk).db.artifacts
        ≡ Dict.get (alice, codes "x") one_version.artifacts)
collect_artifacts-Stays_example =
    collect_artifacts-Stays own_dir (λ _. true) [] (λ a b same. same) ((alice, codes "x") ∷ [])
      (alice, codes "x") one_version disk (inr used_artifact)

abbrev host_row : RouteRow
host_row = ((host, codes "s"), (alice, app))

route_rows_iff_example : (Bag.has host_row (route_rows verified_host) ≡ true) ↔ (
    (id : Text) × (d : Deployment) × IsServed verified_host host id d × (row_of host d ≡ host_row))
route_rows_iff_example = route_rows_iff verified_host host_row (Reach-IsSound path_verified)

abbrev nothing_released : Releases
nothing_released = record { project_of = λ _. none; current = λ _. none }

nothing_kept : Implements no_rows nothing_released
unfolding store
nothing_kept = record {
  versions = λ id. refl;
  pointers = λ p id. (λ h. absurd (cc h), λ c. absurd (cc c.1));
}

abbrev steps : List Operation
steps =
    record_version (codes "1") (version (codes "x") 10) []
    ∷ record_version (codes "2") (version (codes "y") 20) []
    ∷ activate_version alice app (codes "1")
    ∷ []

abbrev rolled_back : Database
rolled_back = kept_tables (tables (activate_deployment alice app (codes "1") two_versions))

performed : perform_all steps no_rows ≡ some rolled_back
unfolding store
performed = refl

perform_all-Implements_example : Implements rolled_back (promises steps nothing_released)
perform_all-Implements_example =
    perform_all-Implements steps no_rows rolled_back nothing_released (Reach-IsSound here).valid
      nothing_kept performed
