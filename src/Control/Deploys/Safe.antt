-- ===== src/Control/Deploys/Safe.antt =====
-- apps/control/src/deployments.ts: a deploy at work, and what it may rely on.
use sproutboat.Base.{
  ◌≡◌, sym, ap, refl, ◌∙◌, Bool, true, false, ◌&&◌, some, inl, inr, Bool-cases, pair_eq,
}
use sproutboat.Base.Codes.{Text, text_eq, text_eq_self, text_eq_inst}
use sproutboat.Base.Dict
use sproutboat.Base.Dict.{Dict}
use sproutboat.Control.Store.{Pair, Deployment, Database, ref_of, references}
use sproutboat.Control.Store.Deployments.{joined_key, is_referenced}
use sproutboat.Control.Store.Artifacts.{Disk, artifact_in_flight}
use sproutboat.Control.Store.Valid.{IsValid}
use sproutboat.Control.Deploys.{placed, Job, Deploys, dir_of}

module _ (owner_dir : Text → Text) where
  -- Every version's directory is there.
  abbrev pub HasDirs : Dict Text Deployment → Disk → Type 0
  HasDirs table disk =
      (i : Text) (d : Deployment)
      → Dict.get i table ≡ some d
      → Dict.has (dir_of owner_dir (ref_of d)) disk ≡ true

  pub record IsSafe (w : Deploys) : Type 0 where
    pub valid : IsValid w.db
    pub dirs : HasDirs w.db.deployments w.disk
    pub held :
        (j : Text) (job : Job)
        → Dict.get j w.jobs ≡ some job
        → artifact_in_flight job.ref w.in_flight ≡ true
    pub apart :
        (i j : Text) (a b : Job)
        → Dict.get i w.jobs ≡ some a
        → Dict.get j w.jobs ≡ some b
        → joined_key a.ref ≡ joined_key b.ref
        → i ≡ j
    pub staged :
        (j : Text) (job : Job) (b : Bool)
        → Dict.get j w.jobs ≡ some job
        → job.stage ≡ placed b
        → Dict.has (dir_of owner_dir job.ref) w.disk ≡ true
    pub own :
        (j : Text) (job : Job)
        → Dict.get j w.jobs ≡ some job
        → job.stage ≡ placed true
        → is_referenced job.ref w.db ≡ false

-- A row's artifact is referenced.
pub referenced :
    (i : Text) (d : Deployment) (db : Database)
    → Dict.get i db.deployments ≡ some d
    → is_referenced (ref_of d) db ≡ true
unfolding is_referenced references
referenced i d db at =
    Dict.exists-get i d (λ _ e. references (ref_of d) e) db.deployments at
      (rw (text_eq_self d.owner_id, text_eq_self d.artifact) refl)

pub not_referenced :
    (ref : Pair) (i : Text) (d : Deployment) (db : Database)
    → is_referenced ref db ≡ false
    → Dict.get i db.deployments ≡ some d
    → (text_eq ref.0 d.owner_id && text_eq ref.1 d.artifact) ≡ false
not_referenced ref i d db free at = elim (Bool-cases (pair_eq.beq ref (ref_of d))) [
  | inr ne ↦ ne
  | inl eq ↦
      let same : ref ≡ ref_of d = (pair_eq.beq_iff ref (ref_of d)).0 eq in
      absurd (cc (sym free ∙ ap (λ r. is_referenced r db) same ∙ referenced i d db at))
]
