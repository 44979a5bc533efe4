-- ===== src/Control/Store/Reach.antt =====
-- apps/control/src/store.ts: whatever transactions follow each other.
use sproutboat.Base.{ℕ, ◌≡◌, Bool, Option, some, List, [], pair_eq}
use sproutboat.Base.Codes.{Text, text_eq_inst}
use sproutboat.Base.Dict
use sproutboat.Base.Dict.{Dict, filter-some, passing-some, has-filter, filter-Unique}
use sproutboat.Control.Store.{Pair, Deployment, Database}
use sproutboat.Control.Store.Deployments.{
  record_deployment, activate_deployment, prune_project_deployments, delete_project, delete_owner,
  delete_deployment, ban_owner, unban_owner,
}
use sproutboat.Control.Store.Domains.{
  ClaimResult, claim_custom_domain, mark_custom_domain_verified, delete_custom_domain,
}
use sproutboat.Control.Store.Artifacts.{Disk, collect_artifacts}
use sproutboat.Control.Store.Kept.{
  IsSound, untouched-IsOwned, prune-IsOwned, delete_deployment-IsOwned, record_deployment-IsOwned,
  activate_deployment-IsOwned, delete_owner-IsSound, delete_project-IsSound, ban_owner-IsSound,
  unban_owner-IsSound, claim_custom_domain-IsSound, mark_custom_domain_verified-IsSound,
  delete_custom_domain-IsSound,
}
use sproutboat.Control.Store.Valid.{prune_project_deployments-IsValid, delete_deployment-IsValid}
use sproutboat.Control.Store.Promotion.{record_deployment-IsValid, activate_deployment-IsValid}
use sproutboat.Control.Store.Collecting.{collect_artifacts-IsValid, collect_artifacts-Apart}

-- A transaction that did not throw.
pub data Change (db : Database) : Database → Type 0 where
  recorded_version :
      (id : Text) (input : Deployment) (rs : List Text) (after : Database) (d : Deployment)
      → record_deployment id input rs db ≡ some (after, d)
      → Change db after
  activated :
      (owner project id : Text) (after : Database) (d : Option Deployment)
      → activate_deployment owner project id db ≡ some (after, d)
      → Change db after
  pruned :
      (owner project : Text) (kept : ℕ)
      → Change db (prune_project_deployments owner project kept db).0
  deleted_version : (owner project id : Text) → Change db (delete_deployment owner project id db).0
  deleted_project : (owner project : Text) → Change db (delete_project owner project db).0
  deleted_owner : (owner : Text) → Change db (delete_owner owner db).0
  collected :
      (owner_dir : Text → Text) (rm_works : Pair → Bool) (in_flight : List Text) (refs : List Pair)
      (disk : Disk)
      → Change db (collect_artifacts owner_dir rm_works in_flight refs db disk).db
  banned : (owner : Text) (clock : ℕ) → Change db (ban_owner owner clock db)
  unbanned : (owner : Text) → Change db (unban_owner owner db)
  claimed :
      (hostname owner project token : Text) (clock : ℕ) (after : Database) (result : ClaimResult)
      → claim_custom_domain hostname owner project token clock db ≡ some (after, result)
      → Change db after
  verified :
      (owner project hostname : Text) (clock : ℕ)
      → Change db (mark_custom_domain_verified owner project hostname clock db).0
  deleted_domain :
      (owner project hostname : Text) → Change db (delete_custom_domain owner project hostname db).0

pub data Reach (db : Database) : Database → Type 0 where
  here : Reach db db
  next : {x y : Database} → Reach db x → Change x y → Reach db y

pub Change-IsSound : {db after : Database} → Change db after → IsSound db → IsSound after
Change-IsSound {db} (recorded_version id input rs after d e) s = record {
  valid = record_deployment-IsValid id input rs db after d e s.valid;
  owned = record_deployment-IsOwned id input rs db after d e s.owned;
}
Change-IsSound {db} (activated owner project id after d e) s = record {
  valid = activate_deployment-IsValid owner project id db after d e s.valid;
  owned = activate_deployment-IsOwned owner project id db after d e s.owned;
}
Change-IsSound {db} (pruned owner project kept) s = record {
  valid = prune_project_deployments-IsValid owner project kept db s.valid;
  owned = prune-IsOwned owner project kept db s.owned;
}
Change-IsSound {db} (deleted_version owner project id) s = record {
  valid = delete_deployment-IsValid owner project id db s.valid;
  owned = delete_deployment-IsOwned owner project id db s.owned;
}
Change-IsSound {db} (deleted_project owner project) s = delete_project-IsSound owner project db s
Change-IsSound {db} (deleted_owner owner) s = delete_owner-IsSound owner db s
Change-IsSound {db} (collected owner_dir rm_works in_flight refs disk) s =
    let (d, p, _) = collect_artifacts-Apart owner_dir rm_works in_flight refs db disk in
    record {
      valid = collect_artifacts-IsValid owner_dir rm_works in_flight refs db disk s.valid;
      owned = untouched-IsOwned db _ d p s.owned;
    }
Change-IsSound {db} (banned owner clock) s = ban_owner-IsSound owner clock db s
Change-IsSound {db} (unbanned owner) s = unban_owner-IsSound owner db s
Change-IsSound {db} (claimed hostname owner project token clock after result e) s =
    claim_custom_domain-IsSound hostname owner project token clock db after result e s
Change-IsSound {db} (verified owner project hostname clock) s =
    mark_custom_domain_verified-IsSound owner project hostname clock db s
Change-IsSound {db} (deleted_domain owner project hostname) s =
    delete_custom_domain-IsSound owner project hostname db s

abbrev pub no_rows : Database
no_rows = record {
  artifacts = [];
  projects = [];
  deployments = [];
  banned_owners = [];
  custom_domains = [];
  secrets = [];
  resources = [];
  deployment_resources = [];
}

pub no_rows-IsSound : IsSound no_rows
unfolding Dict.get
no_rows-IsSound = record {
  valid = record {
    ids = tt;
    project_keys = tt;
    one_active = λ i j d e h. absurd (cc h);
    parents = λ i d h. absurd (cc h);
  };
  owned = record {
    keys = tt;
    one_verified = λ host a b x y h. absurd (cc h);
    houses = λ key x h. absurd (cc h);
  };
}

-- However deploys, rollbacks, prunings, deletions, bans, collections and domain claims follow each
-- other from an empty database: each project has one active version at most, every version's
-- artifact and project have a row, each hostname has one verified owner at most, and every claim's
-- project has a row.
pub Reach-IsSound : {db : Database} → Reach no_rows db → IsSound db
Reach-IsSound here = no_rows-IsSound
Reach-IsSound (next r c) = Change-IsSound c (Reach-IsSound r)
