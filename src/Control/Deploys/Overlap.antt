-- ===== src/Control/Deploys/Overlap.antt =====
-- apps/control/src/deployments.ts: two deploys of one artifact at work at once.
use sproutboat.Base.{◌≡◌, ap, refl, ◌∙◌, true, false, none, some, List, pair_eq}
use sproutboat.Base.Codes.{Text, text_eq, text_eq_self, text_eq_inst}
use sproutboat.Base.Dict
use sproutboat.Base.Dict.{Dict, get-insert, get-delete}
use sproutboat.Control.Store.{Pair, Deployment, Database}
use sproutboat.Control.Store.Deployments.{is_referenced, link_resources}
use sproutboat.Control.Store.Switching.{
  recorded, after_insert, get-after_insert, record_deployment-some, link_resources-deployments,
}
use sproutboat.Control.Deploys.{
  placed, Deploys, dir_of, hold_job, finish_job, place_job, remove_placed, candidate_failed,
  record_job,
}
use sproutboat.Control.Deploys.Safe.{referenced}

module _ (owner_dir : Text → Text) (a b : Text) (ref : Pair) where
  -- Both hold the artifact, then both rename.
  abbrev pub both_placed : Deploys → Deploys
  both_placed w =
      place_job owner_dir b ref
        (place_job owner_dir a ref (hold_job owner_dir b ref (hold_job owner_dir a ref w)))

  both_placed-reads :
      (w : Deploys)
      → text_eq b a ≡ false
      → Dict.has (dir_of owner_dir ref) w.disk ≡ false
      → (Dict.get a (both_placed w).jobs ≡ some (record { ref = ref; stage = placed true }))
        × (Dict.get b (both_placed w).jobs ≡ some (record { ref = ref; stage = placed false }))
        × ((both_placed w).db ≡ w.db)
  unfolding hold_job place_job
  both_placed-reads w apart absent =
      let there : Dict.has (dir_of owner_dir ref) (Dict.insert (dir_of owner_dir ref) tt w.disk)
          ≡ true =
        Dict.has-some (dir_of owner_dir ref) tt (Dict.insert (dir_of owner_dir ref) tt w.disk)
          (Dict.get-insert_self (dir_of owner_dir ref) tt w.disk) in
      rw absent (
        rw there (
          get-insert b a _ _ ∙ rw apart (Dict.get-insert_self a _ _),
          Dict.get-insert_self b _ _,
          refl,
        ))

  recorded_row :
      (id : Text) (input : Deployment) (rs : List Text) (db : Database)
      → is_referenced ref (
          link_resources id rs
            (after_insert id (recorded (record input { owner_id = ref.0; artifact = ref.1 })) db))
        ≡ true
  recorded_row id input rs db =
      let d = recorded (record input { owner_id = ref.0; artifact = ref.1 }) in
      referenced id d (link_resources id rs (after_insert id d db)) (
        ap (λ t. Dict.get id t) (link_resources-deployments id rs (after_insert id d db))
        ∙ get-after_insert id id d db
        ∙ rw (text_eq_self id) refl)

  -- Two deploys of one artifact, whose directory is not there yet, hold it and rename, one after the
  -- other; the second starts and is recorded under a new id; then the first does not start. The
  -- first removes the directory, which the second's version, still recorded, needs.
  pub candidate_failed-orphans :
      (id : Text) (input : Deployment) (rs : List Text) (w : Deploys)
      → text_eq b a ≡ false
      → Dict.has (dir_of owner_dir ref) w.disk ≡ false
      → Dict.has id w.db.deployments ≡ false
      → (Dict.get a (both_placed w).jobs ≡ some (record { ref = ref; stage = placed true }))
        × (Dict.get b (both_placed w).jobs ≡ some (record { ref = ref; stage = placed false }))
        × (is_referenced ref
              (candidate_failed owner_dir a ref true
                (record_job owner_dir b ref false id input rs (both_placed w))).db
            ≡ true)
        × (Dict.get
              (dir_of owner_dir ref)
              (candidate_failed owner_dir a ref true
                (record_job owner_dir b ref false id input rs (both_placed w))).disk
            ≡ none)
  unfolding candidate_failed remove_placed finish_job record_job
  candidate_failed-orphans id input rs w apart absent new =
      let (stage_a, stage_b, same) = both_placed-reads w apart absent in
      let d0 : Deployment = record input { owner_id = ref.0; artifact = ref.1 } in
      let fresh : Dict.has id (both_placed w).db.deployments ≡ false =
        ap (λ (db : Database). Dict.has id db.deployments) same ∙ new in
      (
        stage_a,
        stage_b,
        rw (record_deployment-some id d0 rs (both_placed w).db fresh, record_job)
            (recorded_row id input rs (both_placed w).db),
        Dict.get-delete_self (dir_of owner_dir ref)
            (record_job owner_dir b ref false id input rs (both_placed w)).disk,
      )
