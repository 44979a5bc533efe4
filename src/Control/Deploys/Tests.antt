-- ===== src/Control/Deploys/Tests.antt =====
-- apps/control/src/deployments.ts: runs of deploys, and the theorems at inputs.
use sproutboat.Base.{◌≡◌, refl, true, false, none, some, [], ◌∷◌, pair_eq}
use sproutboat.Base.Codes.{Text, codes, text_eq, text_eq_inst}
use sproutboat.Base.Bag
use sproutboat.Base.Dict
use sproutboat.Base.Order.{first, slice}
use sproutboat.Base.Split.{split, onto_first, starts_with, last}
use sproutboat.Control.Store.{
  Pair, Deployment, kv, Database, belongs, references, insert_new, meets_active, insert_deployment,
  set_inactive,
}
use sproutboat.Control.Store.Deployments.{
  joined_key, is_referenced, link_resources, record_deployment,
}
use sproutboat.Control.Store.Resources.{kind_text, resource_by_id}
use sproutboat.Control.Store.Artifacts.{hold_artifact, release_artifact, artifact_in_flight}
use sproutboat.Control.Store.Reach.{no_rows}
use sproutboat.Control.Deploys.{
  waiting, placed, Deploys, dir_of, hold_job, finish_job, place_job, remove_placed,
  candidate_failed, record_job,
}
use sproutboat.Control.Deploys.Safe.{IsSafe}
use sproutboat.Control.Deploys.World.{Reach, here, next, held, renamed, started, Reach-IsSafe}
use sproutboat.Control.Deploys.Overlap.{both_placed, candidate_failed-orphans}
use sproutboat.Control.Deploys.Uploads.{
  is_alnum, is_label_char, is_project_name, deployment_hostname, strip_suffix, is_label,
  is_two_labels, is_deployment_hostname, Upload, total_size, is_over, asset_key, first_unlisted,
  check_listing, check_sizes, check_upload, accepted, not_listed, too_large, ResourceBindingRef,
  resolved, resolve_from, resolve_resource_bindings,
}

deploys : Unit {0}
unfolding belongs references insert_new meets_active insert_deployment set_inactive joined_key
    is_referenced link_resources record_deployment kind_text resource_by_id hold_artifact
    release_artifact artifact_in_flight hold_job finish_job place_job remove_placed candidate_failed
    record_job is_alnum is_label_char is_project_name deployment_hostname strip_suffix is_label
    is_two_labels is_deployment_hostname total_size is_over asset_key first_unlisted check_listing
    check_sizes check_upload resolve_from resolve_resource_bindings first slice split onto_first
    starts_with last Dict.get Dict.has Dict.insert Dict.delete Dict.update Dict.exists Bag.has
    Bag.add Bag.delete text_eq
deploys = tt

abbrev own_dir : Text → Text
own_dir owner = owner

abbrev start : Deploys
start = record { db = no_rows; disk = []; in_flight = []; jobs = [] }

abbrev ref : Pair
ref = (codes "a", codes "x")

abbrev input : Deployment
input = record {
  owner_id = codes "a";
  project = codes "p";
  username = codes "a";
  hostname = codes "p.a";
  artifact = codes "x";
  sprout_path = codes "s";
  deployed_at = 10;
  active = false;
  binary_size = none;
  compile_ms = none;
}

abbrev job : Text
job = codes "j"

abbrev after_hold : Deploys
after_hold = hold_job own_dir job ref start

abbrev after_rename : Deploys
after_rename = place_job own_dir job ref after_hold

abbrev after_start : Deploys
after_start = record_job own_dir job ref true (codes "1") input [] after_rename

path_start : Reach own_dir start after_start
unfolding deploys
path_start =
    next
      (next (next here (held job ref refl refl))
        (renamed job (record { ref = ref; stage = waiting }) refl refl))
      (started job (record { ref = ref; stage = placed true }) true (codes "1") input [] refl refl)

deploy_test : (after_start.disk ≡ (ref, tt) ∷ []) × (after_start.in_flight ≡ [])
unfolding deploys
deploy_test = (refl, refl)

Reach-IsSafe_example : IsSafe own_dir after_start
Reach-IsSafe_example = Reach-IsSafe own_dir (λ a b same. same) path_start

apart : text_eq (codes "k") job ≡ false
unfolding deploys
apart = refl

no_dir : Dict.has (dir_of own_dir ref) start.disk ≡ false
unfolding deploys
no_dir = refl

no_id : Dict.has (codes "1") start.db.deployments ≡ false
unfolding deploys
no_id = refl

candidate_failed-orphans_example :
    (Dict.get job (both_placed own_dir job (codes "k") ref start).jobs
      ≡ some (record { ref = ref; stage = placed true }))
    × (Dict.get (codes "k") (both_placed own_dir job (codes "k") ref start).jobs
        ≡ some (record { ref = ref; stage = placed false }))
    × (is_referenced ref
          (candidate_failed own_dir job ref true (
            record_job own_dir
              (codes "k")
              ref
              false
              (codes "1")
              input
              []
              (both_placed own_dir job (codes "k") ref start))).db
        ≡ true)
    × (Dict.get
          (dir_of own_dir ref)
          (candidate_failed own_dir job ref true (
            record_job own_dir
              (codes "k")
              ref
              false
              (codes "1")
              input
              []
              (both_placed own_dir job (codes "k") ref start))).disk
        ≡ none)
candidate_failed-orphans_example =
    candidate_failed-orphans own_dir job (codes "k") ref (codes "1") input [] start apart no_dir
      no_id

name_tests :
    (is_project_name (codes "app-1") ≡ true)
    × (is_project_name (codes "ab") ≡ false)
    × (is_project_name (codes "app-") ≡ false)
    × (is_deployment_hostname (codes "b.co") (codes "app.al.b.co") ≡ true)
    × (is_deployment_hostname (codes "b.co") (codes "x.app.al.b.co") ≡ false)
unfolding deploys
name_tests = (refl, refl, refl, refl, refl)

good_project : is_project_name (codes "app-1") ≡ true
unfolding deploys
good_project = refl

good_user : is_label (codes "al") ≡ true
unfolding deploys
good_user = refl

abbrev upload : Upload
upload = record {
  manifest = some 100;
  sprout = some 1000;
  bindings = none;
  assets_manifest = some 50;
  listed = some (codes "/i" ∷ []);
  assets = (codes "i", 5) ∷ [];
}

upload_tests :
    (check_upload upload ≡ accepted)
    × (check_upload (record upload { listed = some [] }) ≡ not_listed (codes "i"))
    × (check_upload (record upload { bindings = some 65537 }) ≡ too_large)
unfolding deploys
upload_tests = (refl, refl, refl)

abbrev with_resource : Database
with_resource = record no_rows {
  resources =
      (codes "kv_1", record { owner_id = codes "a"; kind = kv; name = codes "n"; created_at = 1 })
      ∷ [];
}

abbrev binding : ResourceBindingRef
binding = record { binding = codes "KV"; kind = kv; id = codes "kv_1" }

bound :
    resolve_resource_bindings (codes "a") with_resource (binding ∷ [])
    ≡ resolved (codes "kv_1" ∷ [])
unfolding deploys
bound = refl
