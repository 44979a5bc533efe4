-- ===== src/Control/Deploys/Reach.antt =====
-- apps/control/src/deployments.ts: deploys, deletions and collections in any order.
use sproutboat.Base.{◌≡◌, ◌⊎◌, sym, ap, ◌∙◌, Bool, false, some, List, inl, inr, Bool-cases, pair_eq}
use sproutboat.Base.Codes.{Text, text_eq, text_eq_inst}
use sproutboat.Base.Dict
use sproutboat.Base.Dict.{Dict}
use sproutboat.Control.Store.{Pair, Deployment, Database, ref_of}
use sproutboat.Control.Store.Deployments.{joined_key, is_referenced, link_resources}
use sproutboat.Control.Store.Switching.{
  recorded, after_insert, get-after_insert, record_deployment-some, record_deployment-none,
  link_resources-deployments,
}
use sproutboat.Control.Store.Valid.{IsValid}
use sproutboat.Control.Store.Promotion.{
  Promotes, origin, promoted, demoted-ref_of, record_deployment-IsValid,
}
use sproutboat.Control.Deploys.{
  placed, Job, Deploys, dir_of, finish_job, candidate_failed, record_job,
}
use sproutboat.Control.Deploys.Safe.{IsSafe, referenced}
use sproutboat.Control.Deploys.Alone.{still_free}
use sproutboat.Control.Deploys.Ending.{finished-IsSafe, candidate_failed-IsSafe}

-- The rows after a recording: the new one, or one of an artifact that a row had.
row_after :
    (id : Text) (d : Deployment) (rs : List Text) (db : Database) (i : Text) (e : Deployment)
    → Dict.get i (link_resources id rs (after_insert id d db)).deployments ≡ some e
    → (ref_of d ≡ ref_of e)
      ⊎ ((x : Deployment) × (Dict.get i db.deployments ≡ some x) × (ref_of e ≡ ref_of x))
row_after id d rs db i e h =
    let m = db.deployments in
    let n = (after_insert id d db).deployments in
    let p : Promotes id d m n = λ j. get-after_insert id j d db in
    let at : Dict.get i n ≡ some e =
      ap (λ t. Dict.get i t) (sym (link_resources-deployments id rs (after_insert id d db))) ∙ h in
    elim (Bool-cases (text_eq id i)) [
      | inl eq ↦ inl (ap ref_of (promoted id d m n p i e at eq))
      | inr ne ↦
          let (x, old, is) = origin id d m n p i e at ne in
          inr (x, old, sym (ap ref_of is) ∙ demoted-ref_of d.owner_id d.project x)
    ]

module _ (owner_dir : Text → Text)
    (injective : (a b : Text) → owner_dir a ≡ owner_dir b → a ≡ b) where
  recorded-IsSafe :
      (job : Text) (ref : Pair) (b : Bool) (mine : Job) (id : Text) (input : Deployment)
      (rs : List Text) (w : Deploys)
      → Dict.get job w.jobs ≡ some mine
      → mine.ref ≡ ref
      → mine.stage ≡ placed b
      → Dict.has id w.db.deployments ≡ false
      → IsSafe owner_dir w
      → IsSafe owner_dir (
          finish_job owner_dir job ref (record w {
            db = link_resources id rs (
                after_insert id
                  (recorded (record input { owner_id = ref.0; artifact = ref.1 }))
                  w.db);
          }))
  recorded-IsSafe job ref b mine id input rs w at same stage new s =
      let d0 : Deployment = record input { owner_id = ref.0; artifact = ref.1 } in
      let d = recorded d0 in
      let after = link_resources id rs (after_insert id d w.db) in
      let valid =
        record_deployment-IsValid id d0 rs w.db after d (record_deployment-some id d0 rs w.db new)
          s.valid in
      finished-IsSafe owner_dir job ref mine after w.disk w at same valid
        (λ i e h. elim (row_after id d rs w.db i e h) [
          | inl is ↦
              ap (λ r. Dict.has (dir_of owner_dir r) w.disk) (sym is ∙ sym same)
              ∙ s.staged job mine b at stage
          | inr (x, old, is) ↦ ap (λ r. Dict.has (dir_of owner_dir r) w.disk) is ∙ s.dirs i x old
        ])
        (λ j x c h _. s.staged j x c h)
        (λ j x h ne st.
          still_free x.ref w.db after valid
            (λ i e row is. elim (row_after id d rs w.db i e row) [
              | inl mine_too ↦ absurd (ne (ap joined_key (mine_too ∙ is)))
              | inr (y, old, ref_is) ↦
                  ap (λ r. is_referenced r w.db) (sym (sym ref_is ∙ is)) ∙ referenced i y w.db old
            ])
            (s.own j x h st))
        s

  pub record_job-IsSafe :
      (job : Text) (ref : Pair) (b : Bool) (mine : Job) (id : Text) (input : Deployment)
      (rs : List Text) (w : Deploys)
      → Dict.get job w.jobs ≡ some mine
      → mine.ref ≡ ref
      → mine.stage ≡ placed b
      → IsSafe owner_dir w
      → IsSafe owner_dir (record_job owner_dir job ref b id input rs w)
  unfolding record_job candidate_failed
  record_job-IsSafe job ref b mine id input rs w at same stage s =
      let d0 : Deployment = record input { owner_id = ref.0; artifact = ref.1 } in
      elim (Bool-cases (Dict.has id w.db.deployments)) [
        | inl there ↦
            rw (record_deployment-none id d0 rs w.db there, record_job)
              (candidate_failed-IsSafe owner_dir injective job ref b mine w at same stage s)
        | inr new ↦
            rw (record_deployment-some id d0 rs w.db new, record_job)
              (recorded-IsSafe job ref b mine id input rs w at same stage new s)
      ]

  -- Tables with rows that were there.
  pub fewer-IsSafe :
      (after : Database) (w : Deploys)
      → IsValid after
      → ((i : Text) (d : Deployment)
          → Dict.get i after.deployments ≡ some d
          → Dict.get i w.db.deployments ≡ some d)
      → IsSafe owner_dir w
      → IsSafe owner_dir (record w { db = after })
  fewer-IsSafe after w valid was s = record {
    valid = valid;
    dirs = λ i d h. s.dirs i d (was i d h);
    held = s.held;
    apart = s.apart;
    staged = s.staged;
    own = λ j x h st.
        still_free x.ref w.db after valid
          (λ i d row is.
            ap (λ r. is_referenced r w.db) (sym is) ∙ referenced i d w.db (was i d row))
          (s.own j x h st);
  }
