-- ===== src/Control/Deploys/Ending.antt =====
-- apps/control/src/deployments.ts: the end of a deploy, and what others do meanwhile.
use sproutboat.Base.{
  ◌≡◌, sym, ap, ◌∙◌, Bool, true, false, some, List, inl, inr, Bool-cases, pair_eq,
}
use sproutboat.Base.Codes.{Text, text_eq, text_eq_iff, text_eq_inst}
use sproutboat.Base.Bag.{has-delete}
use sproutboat.Base.Dict
use sproutboat.Base.Dict.{Dict, delete-some}
use sproutboat.Control.Store.{Pair, Deployment, Database, ref_of}
use sproutboat.Control.Store.Deployments.{joined_key, is_referenced}
use sproutboat.Control.Store.Artifacts.{
  Disk, artifact_in_flight, release_artifact, collect_artifacts,
}
use sproutboat.Control.Store.Valid.{IsValid}
use sproutboat.Control.Store.Collecting.{
  collect_artifacts-Stays, collect_artifacts-IsValid, collect_artifacts-Apart,
}
use sproutboat.Control.Deploys.{
  placed, Job, Deploys, dir_of, finish_job, remove_placed, candidate_failed, collect_now,
}
use sproutboat.Control.Deploys.Safe.{HasDirs, IsSafe, referenced}
use sproutboat.Control.Deploys.Alone.{still_free}

still_there :
    (key : Pair) (before after : Disk)
    → Dict.get key after ≡ Dict.get key before
    → Dict.has key before ≡ true
    → Dict.has key after ≡ true
still_there key before after same h =
    let (x, at) = Dict.get-has-true key before h in Dict.has-some key x after (same ∙ at)

module _ (owner_dir : Text → Text) where
  -- A deploy's end, with the tables and the disk as it leaves them.
  pub finished-IsSafe :
      (job : Text) (ref : Pair) (mine : Job) (db : Database) (disk : Disk) (w : Deploys)
      → Dict.get job w.jobs ≡ some mine
      → mine.ref ≡ ref
      → IsValid db
      → HasDirs owner_dir db.deployments disk
      → ((j : Text) (x : Job) (b : Bool)
          → Dict.get j w.jobs ≡ some x
          → (joined_key ref ≡ joined_key x.ref → ⊥)
          → x.stage ≡ placed b
          → Dict.has (dir_of owner_dir x.ref) disk ≡ true)
      → ((j : Text) (x : Job)
          → Dict.get j w.jobs ≡ some x
          → (joined_key ref ≡ joined_key x.ref → ⊥)
          → x.stage ≡ placed true
          → is_referenced x.ref db ≡ false)
      → IsSafe owner_dir w
      → IsSafe owner_dir (finish_job owner_dir job ref (record w { db = db; disk = disk }))
  unfolding finish_job artifact_in_flight release_artifact
  finished-IsSafe job ref mine db disk w at same valid dirs staged own s =
      let was = λ (j : Text) (x : Job). delete-some job j x w.jobs in
      let other : (j : Text) (x : Job)
          → Dict.get j (Dict.delete job w.jobs) ≡ some x
          → joined_key ref ≡ joined_key x.ref
          → ⊥ =
        λ j x h key.
          let is : job ≡ j = s.apart job j mine x at (was j x h) (ap joined_key same ∙ key) in
          cc (
            sym (Dict.get-delete_self job w.jobs)
            ∙ ap (λ k. Dict.get k (Dict.delete job w.jobs)) is
            ∙ h) in
      record {
        valid = valid;
        dirs = dirs;
        held = λ j x h. elim (Bool-cases (text_eq (joined_key ref) (joined_key x.ref))) [
          | inl eq ↦ absurd (other j x h ((text_eq_iff (joined_key ref) (joined_key x.ref)).0 eq))
          | inr ne ↦
              has-delete (joined_key ref) (joined_key x.ref) w.in_flight
              ∙ rw ne (s.held j x (was j x h))
        ];
        apart = λ i j x y hi hj. s.apart i j x y (was i x hi) (was j y hj);
        staged = λ j x b h. staged j x b (was j x h) (other j x h);
        own = λ j x h. own j x (was j x h) (other j x h);
      }

  module _ (injective : (a b : Text) → owner_dir a ≡ owner_dir b → a ≡ b) where
    -- The directory of another artifact stays where one is removed.
    other_dir_stays :
        (a b : Pair) (disk : Disk)
        → (a ≡ b → ⊥)
        → Dict.has (dir_of owner_dir b) disk ≡ true
        → Dict.has (dir_of owner_dir b) (Dict.delete (dir_of owner_dir a) disk) ≡ true
    other_dir_stays a b disk ne h =
        elim (Bool-cases (pair_eq.beq (dir_of owner_dir a) (dir_of owner_dir b))) [
          | inr other ↦ Dict.has-delete (dir_of owner_dir a) (dir_of owner_dir b) disk other ∙ h
          | inl eq ↦
              let is : dir_of owner_dir a ≡ dir_of owner_dir b =
                (pair_eq.beq_iff (dir_of owner_dir a) (dir_of owner_dir b)).0 eq in
              absurd (
                ne (
                  ap (λ o. (o, a.1)) (injective a.0 b.0 (ap (λ k. k.0) is))
                  ∙ ap (λ dig. (b.0, dig)) (ap (λ k. k.1) is)))
        ]

    pub candidate_failed-IsSafe :
        (job : Text) (ref : Pair) (b : Bool) (mine : Job) (w : Deploys)
        → Dict.get job w.jobs ≡ some mine
        → mine.ref ≡ ref
        → mine.stage ≡ placed b
        → IsSafe owner_dir w
        → IsSafe owner_dir (candidate_failed owner_dir job ref b w)
    unfolding candidate_failed remove_placed
    candidate_failed-IsSafe job ref false mine w at same stage s =
        finished-IsSafe job ref mine w.db w.disk w at same s.valid s.dirs
          (λ j x b h _. s.staged j x b h) (λ j x h _. s.own j x h) s
    candidate_failed-IsSafe job ref true mine w at same stage s =
        let free : is_referenced ref w.db ≡ false =
          ap (λ r. is_referenced r w.db) (sym same) ∙ s.own job mine at stage in
        finished-IsSafe job ref mine w.db (Dict.delete (dir_of owner_dir ref) w.disk) w at same
          s.valid
          (λ i d h.
            other_dir_stays ref (ref_of d) w.disk
              (λ eq. cc (sym free ∙ ap (λ r. is_referenced r w.db) eq ∙ referenced i d w.db h))
              (s.dirs i d h))
          (λ j x b h ne st.
            other_dir_stays ref x.ref w.disk (λ eq. ne (ap joined_key eq)) (s.staged j x b h st))
          (λ j x h _. s.own j x h) s

    pub collect_now-IsSafe :
        (rm_works : Pair → Bool) (refs : List Pair) (w : Deploys)
        → IsSafe owner_dir w
        → IsSafe owner_dir (collect_now owner_dir rm_works refs w)
    unfolding collect_now is_referenced Dict.has
    collect_now-IsSafe rm_works refs w s =
        let c = collect_artifacts owner_dir rm_works w.in_flight refs w.db w.disk in
        let apart = collect_artifacts-Apart owner_dir rm_works w.in_flight refs w.db w.disk in
        let stays = λ (ref : Pair).
          collect_artifacts-Stays owner_dir rm_works w.in_flight injective refs ref w.db w.disk in
        let old : (i : Text) (d : Deployment)
            → Dict.get i c.db.deployments ≡ some d
            → Dict.get i w.db.deployments ≡ some d =
          λ i d h. ap (λ t. Dict.get i t) (sym apart.2) ∙ h in
        record {
          valid = collect_artifacts-IsValid owner_dir rm_works w.in_flight refs w.db w.disk s.valid;
          dirs = λ i d h.
              let row = old i d h in
              still_there (dir_of owner_dir (ref_of d)) w.disk c.disk
                (stays (ref_of d) (inr (referenced i d w.db row))).0 (s.dirs i d row);
          held = s.held;
          apart = s.apart;
          staged = λ j x b h st.
              still_there (dir_of owner_dir x.ref) w.disk c.disk
                (stays x.ref (inl (s.held j x h))).0 (s.staged j x b h st);
          own = λ j x h st.
              still_free x.ref w.db c.db
                (collect_artifacts-IsValid owner_dir rm_works w.in_flight refs w.db w.disk s.valid)
                (λ i d row is.
                  ap (λ r. is_referenced r w.db) (sym is) ∙ referenced i d w.db (old i d row))
                (s.own j x h st);
        }
