-- ===== src/Control/Deploys/World.antt =====
-- apps/control/src/deployments.ts: what can happen while deploys are at work.
use sproutboat.Base.{
  ◌≡◌, sym, refl, ◌∙◌, Bool, false, Option, none, some, List, [], ltb, if_ind, inl, inr, Bool-cases,
  Option-cases, pair_eq, ℕ,
}
use sproutboat.Base.Codes.{Text, text_eq_inst}
use sproutboat.Base.Dict
use sproutboat.Base.Dict.{Dict}
use sproutboat.Control.Store.{Pair, Deployment, Database}
use sproutboat.Control.Store.Deployments.{
  delete_project, delete_deployment, project_deployment, prune_project_deployments, doomed_versions,
  delete_rows, DeploymentDeletion,
}
use sproutboat.Control.Store.Artifacts.{artifact_in_flight}
use sproutboat.Control.Store.Valid.{
  IsValid, delete_deployment-IsValid, prune_project_deployments-IsValid, drop_projects-IsValid,
}
use sproutboat.Control.Store.Pruning.{get-delete_rows}
use sproutboat.Control.Store.Refinement.{dropped_was}
use sproutboat.Control.Store.Refinement.Closing.{closed_was}
use sproutboat.Control.Store.Releases.{same_project}
use sproutboat.Control.Store.Reach.{no_rows, no_rows-IsSound}
use sproutboat.Control.Deploys.{
  waiting, placed, Job, Deploys, hold_job, place_job, candidate_failed, record_job, collect_now,
}
use sproutboat.Control.Deploys.Safe.{IsSafe}
use sproutboat.Control.Deploys.Alone.{hold_job-IsSafe, place_job-IsSafe}
use sproutboat.Control.Deploys.Ending.{candidate_failed-IsSafe, collect_now-IsSafe}
use sproutboat.Control.Deploys.Reach.{record_job-IsSafe, fewer-IsSafe}

-- A deploy begins only while no other holds its artifact.
pub data Step (owner_dir : Text → Text) (w : Deploys) : Deploys → Type 0 where
  held :
      (job : Text) (ref : Pair)
      → Dict.get job w.jobs ≡ none
      → artifact_in_flight ref w.in_flight ≡ false
      → Step owner_dir w (hold_job owner_dir job ref w)
  renamed :
      (job : Text) (mine : Job)
      → Dict.get job w.jobs ≡ some mine
      → mine.stage ≡ waiting
      → Step owner_dir w (place_job owner_dir job mine.ref w)
  failed :
      (job : Text) (mine : Job) (b : Bool)
      → Dict.get job w.jobs ≡ some mine
      → mine.stage ≡ placed b
      → Step owner_dir w (candidate_failed owner_dir job mine.ref b w)
  started :
      (job : Text) (mine : Job) (b : Bool) (id : Text) (input : Deployment) (rs : List Text)
      → Dict.get job w.jobs ≡ some mine
      → mine.stage ≡ placed b
      → Step owner_dir w (record_job owner_dir job mine.ref b id input rs w)
  collected :
      (rm_works : Pair → Bool) (refs : List Pair)
      → Step owner_dir w (collect_now owner_dir rm_works refs w)
  version_deleted :
      (owner project id : Text)
      → Step owner_dir w (record w { db = (delete_deployment owner project id w.db).0 })
  project_deleted :
      (owner project : Text)
      → Step owner_dir w (record w { db = (delete_project owner project w.db).0 })
  pruned :
      (owner project : Text) (kept : ℕ)
      → Step owner_dir w (record w { db = (prune_project_deployments owner project kept w.db).0 })

pub data Reach (owner_dir : Text → Text) (w : Deploys) : Deploys → Type 0 where
  here : Reach owner_dir w w
  next : {x y : Deploys} → Reach owner_dir w x → Step owner_dir x y → Reach owner_dir w y

version_deleted_was :
    (owner project id : Text) (db : Database) (i : Text) (d : Deployment)
    → IsValid db
    → Dict.get i (delete_deployment owner project id db).0.deployments ≡ some d
    → Dict.get i db.deployments ≡ some d
unfolding delete_deployment
version_deleted_was owner project id db i d v =
    elim (Option-cases (project_deployment owner project id db)) [
      | inl gone ↦ rw (gone, delete_deployment) (λ h. h)
      | inr (row, found) ↦
          rw (found, delete_deployment)
            (if_ind
              (λ (z : Database × Option DeploymentDeletion).
                Dict.get i z.0.deployments ≡ some d → Dict.get i db.deployments ≡ some d)
              (row.active) _ _ (λ _ h. h) (λ _ h. (dropped_was id i d db v.ids h).0))
    ]

rows_deleted_was :
    (rows : Dict Text Deployment) (db : Database) (i : Text) (d : Deployment)
    → IsValid db
    → Dict.get i (delete_rows rows db).deployments ≡ some d
    → Dict.get i db.deployments ≡ some d
rows_deleted_was rows db i d v h = elim (Bool-cases (Dict.has i rows)) [
  | inr ne ↦ sym (get-delete_rows i rows db v ∙ rw ne refl) ∙ h
  | inl there ↦
      let out : none ≡ some d = sym (get-delete_rows i rows db v ∙ rw there refl) ∙ h in
      absurd (cc out)
]

pruned_was :
    (owner project : Text) (kept : ℕ) (db : Database) (i : Text) (d : Deployment)
    → IsValid db
    → Dict.get i (prune_project_deployments owner project kept db).0.deployments ≡ some d
    → Dict.get i db.deployments ≡ some d
unfolding prune_project_deployments
pruned_was owner project kept db i d v =
    if_ind
      (λ (z : Database × List Pair).
        Dict.get i z.0.deployments ≡ some d → Dict.get i db.deployments ≡ some d)
      (ltb kept 1) _ _ (λ _ h. h)
      (λ _. rows_deleted_was (doomed_versions owner project kept db) db i d v)

module _ (owner_dir : Text → Text)
    (injective : (a b : Text) → owner_dir a ≡ owner_dir b → a ≡ b) where
  Step-IsSafe : {w x : Deploys} → Step owner_dir w x → IsSafe owner_dir w → IsSafe owner_dir x
  unfolding delete_project
  Step-IsSafe {w} (held job ref new alone) s = hold_job-IsSafe owner_dir job ref w new alone s
  Step-IsSafe {w} (renamed job mine at _) s =
      place_job-IsSafe owner_dir job mine.ref mine w at refl s
  Step-IsSafe {w} (failed job mine b at stage) s =
      candidate_failed-IsSafe owner_dir injective job mine.ref b mine w at refl stage s
  Step-IsSafe {w} (started job mine b id input rs at stage) s =
      record_job-IsSafe owner_dir injective job mine.ref b mine id input rs w at refl stage s
  Step-IsSafe {w} (collected rm_works refs) s =
      collect_now-IsSafe owner_dir injective rm_works refs w s
  Step-IsSafe {w} (version_deleted owner project id) s =
      fewer-IsSafe owner_dir injective (delete_deployment owner project id w.db).0 w
        (delete_deployment-IsValid owner project id w.db s.valid)
        (λ i d. version_deleted_was owner project id w.db i d s.valid) s
  Step-IsSafe {w} (project_deleted owner project) s =
      fewer-IsSafe owner_dir injective (delete_project owner project w.db).0 w
        (drop_projects-IsValid (λ key. same_project key (owner, project)) w.db s.valid)
        (λ i d h. (closed_was owner project i d w.db s.valid.ids h).0) s
  Step-IsSafe {w} (pruned owner project kept) s =
      fewer-IsSafe owner_dir injective (prune_project_deployments owner project kept w.db).0 w
        (prune_project_deployments-IsValid owner project kept w.db s.valid)
        (λ i d. pruned_was owner project kept w.db i d s.valid) s

  Start-IsSafe : IsSafe owner_dir (record { db = no_rows; disk = []; in_flight = []; jobs = [] })
  unfolding Dict.get
  Start-IsSafe = record {
    valid = no_rows-IsSound.valid;
    dirs = λ i d h. absurd (cc h);
    held = λ j x h. absurd (cc h);
    apart = λ i j a b h. absurd (cc h);
    staged = λ j x b h. absurd (cc h);
    own = λ j x h. absurd (cc h);
  }

  -- Where no two owners share a directory, and no deploy begins while another of the same artifact
  -- is at work: however deploys, their failures, deletions, prunings and collections interleave,
  -- every version's directory is on disk, and the directory that a failed deploy removes is no
  -- version's.
  pub Reach-IsSafe :
      {w : Deploys}
      → Reach owner_dir (record { db = no_rows; disk = []; in_flight = []; jobs = [] }) w
      → IsSafe owner_dir w
  Reach-IsSafe here = Start-IsSafe
  Reach-IsSafe (next r st) = Step-IsSafe st (Reach-IsSafe r)
