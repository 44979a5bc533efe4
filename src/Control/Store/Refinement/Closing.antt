-- ===== src/Control/Store/Refinement/Closing.antt =====
-- apps/control/src/store.ts: the deletion of a project, against what was promised.
use sproutboat.Base.{
  ◌≡◌, sym, ap, refl, ◌∙◌, true, false, not, none, some, arith, inl, inr, Bool-cases, Option-cases,
  pair_eq,
}
use mathlib.Core.Option
use sproutboat.Base.Codes.{Text, text_eq_inst}
use sproutboat.Base.Dict
use sproutboat.Base.Dict.{Dict, get-filter, filter-some, passing-some}
use sproutboat.Control.Store.{Pair, Deployment, Database, home, drop_deployments, drop_projects}
use sproutboat.Control.Store.Deployments.{delete_project}
use sproutboat.Control.Store.Valid.{IsValid}
use sproutboat.Control.Store.Releases.{Releases, same_project, close_project, Implements}
use sproutboat.Control.Store.Refine.{same_project_iff}
use sproutboat.Control.Store.Refinement.{project_at, no_project_at, fewer_pointers}

pub closed_was :
    (owner project j : Text) (x : Deployment) (db : Database)
    → Dict.Unique db.deployments
    → Dict.get j (delete_project owner project db).0.deployments ≡ some x
    → (Dict.get j db.deployments ≡ some x) × (same_project (home x) (owner, project) ≡ false)
unfolding delete_project drop_projects drop_deployments
closed_was owner project j x db u h =
    let (at, kept) =
      filter-some j (λ _ d. not (same_project (home d) (owner, project))) x db.deployments u h in
    (at, ground (arith, kept))

get-closed :
    (owner project j : Text) (db : Database)
    → Dict.Unique db.deployments
    → Dict.get j (delete_project owner project db).0.deployments
      ≡ Dict.passing (λ d. not (same_project (home d) (owner, project))) (Dict.get j db.deployments)
unfolding delete_project drop_projects drop_deployments
get-closed owner project j db u =
    get-filter j (λ _ d. not (same_project (home d) (owner, project))) db.deployments u

closed_absent :
    (owner project j : Text) (db : Database)
    → Dict.Unique db.deployments
    → Dict.get j db.deployments ≡ none
    → Dict.get j (delete_project owner project db).0.deployments ≡ none
closed_absent owner project j db u gone =
    get-closed owner project j db u
    ∙ ap (λ o. Dict.passing (λ d. not (same_project (home d) (owner, project))) o) gone

closed_gone :
    (owner project j : Text) (x : Deployment) (db : Database)
    → Dict.Unique db.deployments
    → Dict.get j db.deployments ≡ some x
    → same_project (home x) (owner, project) ≡ true
    → Dict.get j (delete_project owner project db).0.deployments ≡ none
closed_gone owner project j x db u at eq = get-closed owner project j db u ∙ rw at (rw eq refl)

closed_stays :
    (owner project j : Text) (x : Deployment) (db : Database)
    → Dict.Unique db.deployments
    → Dict.get j db.deployments ≡ some x
    → same_project (home x) (owner, project) ≡ false
    → Dict.get j (delete_project owner project db).0.deployments ≡ some x
closed_stays owner project j x db u at ne = get-closed owner project j db u ∙ rw at (rw ne refl)

other_home :
    (p q : Pair) (x : Deployment)
    → same_project p q ≡ false
    → home x ≡ q
    → same_project (home x) p ≡ false
other_home p q x ne house = elim (Bool-cases (same_project (home x) p)) [
  | inr other ↦ other
  | inl eq ↦
      absurd
        (cc (sym ne ∙ (same_project_iff p q).1 (sym ((same_project_iff (home x) p).0 eq) ∙ house)))
]

pub delete_project-Implements :
    (owner project : Text) (db : Database) (r : Releases)
    → IsValid db
    → Implements db r
    → Implements (delete_project owner project db).0 (close_project (owner, project) r)
delete_project-Implements owner project db r v i =
    let p : Pair = (owner, project) in
    let after = (delete_project owner project db).0 in
    record {
      versions = λ j. elim (Option-cases (Dict.get j db.deployments)) [
        | inl gone ↦
            rw (no_project_at j db r i gone)
              (sym (ap (λ o. Option.map home o) (closed_absent owner project j db v.ids gone)))
        | inr (x, at) ↦ rw (project_at j x db r i at) (elim (Bool-cases (same_project (home x) p)) [
          | inl eq ↦
              rw eq
                (sym (ap (λ o. Option.map home o) (closed_gone owner project j x db v.ids at eq)))
          | inr ne ↦
              rw ne
                (sym (ap (λ o. Option.map home o) (closed_stays owner project j x db v.ids at ne)))
        ])
      ];
      pointers = λ q j. elim (Bool-cases (same_project p q)) [
        | inr ne ↦ rw ne (
            fewer_pointers db after r i (λ k x h. (closed_was owner project k x db v.ids h).0) q j
              (λ x at live house.
                closed_stays owner project j x db v.ids at (other_home p q x ne house)))
        | inl eq ↦ rw eq (
          λ h. absurd (cc h),
          λ (x, at, live, house).
              let (_, kept) = closed_was owner project j x db v.ids at in
              let same : home x ≡ p = house ∙ sym ((same_project_iff p q).0 eq) in
              absurd (cc (sym kept ∙ (same_project_iff (home x) p).1 same)),
        )
      ];
    }
