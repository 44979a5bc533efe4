-- ===== src/Control/Deploys.antt =====
-- apps/control/src/deployments.ts, `runDeploy`: the placement of an artifact, the start of its
-- candidate and the row that records it, cut where the code awaits, with deploys, deletions and
-- collections of others in between. The outcome of a start is the step that is taken; the rows and
-- directories are those of the store.
mod Tests
pub mod Safe
pub mod Alone
pub mod Ending
pub mod Reach
pub mod World
pub mod Overlap
pub mod Uploads
pub mod Names
use sproutboat.Base.{Bool, true, false, Option, none, some, List, [], ◌∷◌, if◌then◌else◌, pair_eq}
use sproutboat.Base.Codes.{Text, text_eq, text_eq_inst}
use sproutboat.Base.Dict
use sproutboat.Base.Dict.{Dict}
use sproutboat.Control.Store.{Pair, Deployment, Database, ref_of}
use sproutboat.Control.Store.Deployments.{record_deployment}
use sproutboat.Control.Store.Artifacts.{
  Disk, Collection, hold_artifact, release_artifact, collect_artifacts,
}

-- `placed` is set by the rename; before it, the deploy waits for the lock.
pub data Stage : Type 0 where
  waiting : Stage
  placed : Bool → Stage

pub record Job : Type 0 where
  pub ref : Pair
  pub stage : Stage

pub record Deploys : Type 0 where
  pub db : Database
  pub disk : Disk
  pub in_flight : List Text
  pub jobs : Dict Text Job

module _ (owner_dir : Text → Text) where
  -- `artifactDir`
  abbrev pub dir_of : Pair → Pair
  dir_of ref = (owner_dir ref.0, ref.1)

  -- `const release = holdArtifact(...)`
  unfoldable pub hold_job : Text → Pair → Deploys → Deploys
  hold_job job ref w = record w {
    in_flight = hold_artifact ref w.in_flight;
    jobs = Dict.insert job (record { ref = ref; stage = waiting }) w.jobs;
  }

  -- `finally { release(); }`
  unfoldable pub finish_job : Text → Pair → Deploys → Deploys
  finish_job job ref w = record w {
    in_flight = release_artifact ref w.in_flight;
    jobs = Dict.delete job w.jobs;
  }

  -- The rename: a directory that is there (EEXIST, ENOTEMPTY) is used again.
  unfoldable pub place_job : Text → Pair → Deploys → Deploys
  place_job job ref w =
      if Dict.has (dir_of ref) w.disk
      then record w { jobs = Dict.insert job (record { ref = ref; stage = placed false }) w.jobs }
      else record w {
        disk = Dict.insert (dir_of ref) tt w.disk;
        jobs = Dict.insert job (record { ref = ref; stage = placed true }) w.jobs;
      }

  -- `if (placed) await rm(destination)`
  unfoldable pub remove_placed : Bool → Pair → Deploys → Deploys
  remove_placed true ref w = record w { disk = Dict.delete (dir_of ref) w.disk }
  remove_placed false ref w = w

  -- The candidate does not start.
  unfoldable pub candidate_failed : Text → Pair → Bool → Deploys → Deploys
  unfolding remove_placed finish_job
  candidate_failed job ref was_placed w = finish_job job ref (remove_placed was_placed ref w)

  -- The row, or the same cleaning up where the transaction throws.
  unfoldable pub record_job : Text → Pair → Bool → Text → Deployment → List Text → Deploys → Deploys
  unfolding remove_placed finish_job
  record_job job ref was_placed id input rs w =
      elim (record_deployment id (record input { owner_id = ref.0; artifact = ref.1 }) rs w.db) [
        | none ↦ finish_job job ref (remove_placed was_placed ref w)
        | some (after, _) ↦ finish_job job ref (record w { db = after })
      ]

  unfoldable pub collect_now : (Pair → Bool) → List Pair → Deploys → Deploys
  collect_now rm_works refs w =
      let c = collect_artifacts owner_dir rm_works w.in_flight refs w.db w.disk in
      record w { db = c.db; disk = c.disk }
