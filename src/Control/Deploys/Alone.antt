-- ===== src/Control/Deploys/Alone.antt =====
-- apps/control/src/deployments.ts: what each step of a deploy keeps, where no two deploys of one
-- artifact are at work at once.
use sproutboat.Base.{
  ◌≡◌, sym, ap, refl, ◌∙◌, Bool, true, false, ◌&&◌, none, some, if_ind, inl, inr, Bool-cases,
  pair_eq,
}
use sproutboat.Base.Codes.{Text, text_eq, text_eq_self, text_eq_inst}
use sproutboat.Base.Bag
use sproutboat.Base.Bag.{has-add, has-delete}
use sproutboat.Base.Dict
use sproutboat.Base.Dict.{Dict, insert-cases, delete-some, get-insert, get-delete}
use sproutboat.Control.Store.{Pair, Deployment, Database, ref_of, references}
use sproutboat.Control.Store.Deployments.{joined_key, is_referenced}
use sproutboat.Control.Store.Artifacts.{Disk, artifact_in_flight, hold_artifact}
use sproutboat.Control.Store.Valid.{IsValid}
use sproutboat.Control.Deploys.{Stage, waiting, placed, Job, Deploys, dir_of, hold_job, place_job}
use sproutboat.Control.Deploys.Safe.{IsSafe}

-- A referenced artifact has a row.
pub referencing_row :
    (ref : Pair) (db : Database)
    → IsValid db
    → is_referenced ref db ≡ true
    → (i : Text) × (d : Deployment) × (Dict.get i db.deployments ≡ some d) × (ref_of d ≡ ref)
unfolding is_referenced references
referencing_row ref db v h =
    let (i, d, at, same) = Dict.exists-true (λ _ d. references ref d) db.deployments v.ids h in
    (i, d, at, (pair_eq.beq_iff (ref_of d) ref).0 same)

-- An artifact that no row references stays so where the rows' artifacts are no others.
pub still_free :
    (ref : Pair) (db after : Database)
    → IsValid after
    → ((i : Text) (d : Deployment)
        → Dict.get i after.deployments ≡ some d
        → ref_of d ≡ ref
        → is_referenced ref db ≡ true)
    → is_referenced ref db ≡ false
    → is_referenced ref after ≡ false
still_free ref db after v was free = elim (Bool-cases (is_referenced ref after)) [
  | inr ne ↦ ne
  | inl used ↦
      let (i, d, at, same) = referencing_row ref after v used in
      absurd (cc (sym free ∙ was i d at same))
]

-- Jobs that are for the artifacts of jobs before.
abbrev SameRefs : Dict Text Job → Dict Text Job → Type 0
SameRefs jobs later =
    (j : Text) (x : Job)
    → Dict.get j later ≡ some x
    → (y : Job) × (Dict.get j jobs ≡ some y) × (x.ref ≡ y.ref)

module _ (owner_dir : Text → Text) where
  pub hold_job-IsSafe :
      (job : Text) (ref : Pair) (w : Deploys)
      → Dict.get job w.jobs ≡ none
      → artifact_in_flight ref w.in_flight ≡ false
      → IsSafe owner_dir w
      → IsSafe owner_dir (hold_job owner_dir job ref w)
  unfolding hold_job artifact_in_flight hold_artifact
  hold_job-IsSafe job ref w new alone s =
      let fresh : Job = record { ref = ref; stage = waiting } in
      let cases = λ (j : Text) (x : Job). insert-cases job j fresh x w.jobs in
      let other : (j : Text) (x : Job)
          → Dict.get j w.jobs ≡ some x
          → joined_key ref ≡ joined_key x.ref
          → ⊥ =
        λ j x at same. cc (sym alone ∙ ap (λ k. Bag.has k w.in_flight) same ∙ s.held j x at) in
      record {
        valid = s.valid;
        dirs = s.dirs;
        held = λ j x h. elim (cases j x h) [
          | inl (_, is) ↦
              ap (λ (y : Job). Bag.has (joined_key y.ref) (Bag.add (joined_key ref) w.in_flight))
                (sym is)
              ∙ has-add (joined_key ref) (joined_key ref) w.in_flight
              ∙ rw (text_eq_self (joined_key ref)) refl
          | inr old ↦
              has-add (joined_key ref) (joined_key x.ref) w.in_flight
              ∙ if_ind (λ z. z ≡ true) (text_eq (joined_key ref) (joined_key x.ref)) true
                  (Bag.has (joined_key x.ref) w.in_flight) (λ _. refl) (λ _. s.held j x old)
        ];
        apart = λ i j a b hi hj same. elim (cases i a hi) [
          | inl (here, is) ↦ elim (cases j b hj) [
            | inl (there, _) ↦ sym here ∙ there
            | inr old ↦ absurd (other j b old (ap (λ (y : Job). joined_key y.ref) is ∙ same))
          ]
          | inr old ↦ elim (cases j b hj) [
            | inl (_, is) ↦
                absurd (other i a old (ap (λ (y : Job). joined_key y.ref) is ∙ sym same))
            | inr old2 ↦ s.apart i j a b old old2 same
          ]
        ];
        staged = λ j x b h st. elim (cases j x h) [
          | inl (_, is) ↦ absurd (cc (ap (λ (y : Job). y.stage) is ∙ st))
          | inr old ↦ s.staged j x b old st
        ];
        own = λ j x h st. elim (cases j x h) [
          | inl (_, is) ↦ absurd (cc (ap (λ (y : Job). y.stage) is ∙ st))
          | inr old ↦ s.own j x old st
        ];
      }

  restaged-SameRefs :
      (job : Text) (ref : Pair) (stage : Stage) (old : Job) (jobs : Dict Text Job)
      → Dict.get job jobs ≡ some old
      → old.ref ≡ ref
      → SameRefs jobs (Dict.insert job (record { ref = ref; stage = stage }) jobs)
  restaged-SameRefs job ref stage old jobs at same j x h =
      elim (insert-cases job j (record { ref = ref; stage = stage }) x jobs h) [
        | inl (here, is) ↦ (
          old,
          ap (λ k. Dict.get k jobs) (sym here) ∙ at,
          ap (λ (y : Job). y.ref) (sym is) ∙ sym same,
        )
        | inr before ↦ (x, before, refl)
      ]

  -- What stands on a disk that has one directory more, and on one that has one less.
  has-without :
      (a b : Pair) (table : Disk)
      → (text_eq a.0 b.0 && text_eq a.1 b.1) ≡ false
      → Dict.has b table ≡ true
      → Dict.has b (Dict.delete a table) ≡ true
  has-without a b table ne h = Dict.has-delete a b table ne ∙ h

  -- The world after a rename, either way.
  placed-IsSafe :
      (job : Text) (ref : Pair) (b : Bool) (old : Job) (disk : Disk) (w : Deploys)
      → Dict.get job w.jobs ≡ some old
      → old.ref ≡ ref
      → Dict.has (dir_of owner_dir ref) disk ≡ true
      → ((key : Pair) → Dict.has key w.disk ≡ true → Dict.has key disk ≡ true)
      → (b ≡ true → is_referenced ref w.db ≡ false)
      → IsSafe owner_dir w
      → IsSafe owner_dir (record w {
        disk = disk;
        jobs = Dict.insert job (record { ref = ref; stage = placed b }) w.jobs;
      })
  placed-IsSafe job ref b old disk w at same there keeps free s =
      let now : Job = record { ref = ref; stage = placed b } in
      let was = restaged-SameRefs job ref (placed b) old w.jobs at same in
      record {
        valid = s.valid;
        dirs = λ i d h. keeps (dir_of owner_dir (ref_of d)) (s.dirs i d h);
        held = λ j x h.
            let (y, before, is) = was j x h in
            ap (λ r. artifact_in_flight r w.in_flight) is ∙ s.held j y before;
        apart = λ i j x y hi hj key.
            let (x0, before_x, is_x) = was i x hi in
            let (y0, before_y, is_y) = was j y hj in
            s.apart i j x0 y0 before_x before_y
              (sym (ap joined_key is_x) ∙ key ∙ ap joined_key is_y);
        staged = λ j x c h st. elim (insert-cases job j now x w.jobs h) [
          | inl (_, is) ↦ ap (λ (y : Job). Dict.has (dir_of owner_dir y.ref) disk) (sym is) ∙ there
          | inr before ↦ keeps (dir_of owner_dir x.ref) (s.staged j x c before st)
        ];
        own = λ j x h st. elim (insert-cases job j now x w.jobs h) [
          | inl (_, is) ↦
              let same_stage : placed b ≡ placed true = ap (λ (y : Job). y.stage) is ∙ st in
              ap (λ (y : Job). is_referenced y.ref w.db) (sym is) ∙ free (cc same_stage)
          | inr before ↦ s.own j x before st
        ];
      }

  pub place_job-IsSafe :
      (job : Text) (ref : Pair) (old : Job) (w : Deploys)
      → Dict.get job w.jobs ≡ some old
      → old.ref ≡ ref
      → IsSafe owner_dir w
      → IsSafe owner_dir (place_job owner_dir job ref w)
  unfolding place_job
  place_job-IsSafe job ref old w at same s =
      elim (Bool-cases (Dict.has (dir_of owner_dir ref) w.disk)) [
        | inl there ↦ rw there (
            placed-IsSafe job ref false old w.disk w at same there (λ key h. h) (λ e. absurd (cc e))
              s)
        | inr absent ↦ rw absent (
            placed-IsSafe job ref true old (Dict.insert (dir_of owner_dir ref) tt w.disk) w at same
              (Dict.has-some (dir_of owner_dir ref) tt
                (Dict.insert (dir_of owner_dir ref) tt w.disk)
                (Dict.get-insert_self (dir_of owner_dir ref) tt w.disk))
              (λ key h. Dict.has-insert (dir_of owner_dir ref) key tt w.disk h)
              (λ _. elim (Bool-cases (is_referenced ref w.db)) [
                | inr ne ↦ ne
                | inl used ↦
                    let (i, d, row, is) = referencing_row ref w.db s.valid used in
                    absurd (
                      cc (
                        sym absent
                        ∙ ap (λ r. Dict.has (dir_of owner_dir r) w.disk) (sym is)
                        ∙ s.dirs i d row))
              ])
              s)
      ]
