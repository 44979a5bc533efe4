-- ===== src/Control/Store/Refinement.antt =====
-- apps/control/src/store.ts: whatever is done with versions, the tables keep what was promised.
pub mod Closing
use sproutboat.Base.{
  ◌≡◌, ◌↔◌, sym, ap, refl, ◌∙◌, true, false, not, none, some, if◌then◌else◌, arith, inl, inr,
  Bool-cases, Option-cases, pair_eq,
}
use mathlib.Core.Option
use mathlib.Core.Path.{subst}
use sproutboat.Base.Codes.{Text, text_eq, text_eq_iff, text_eq_self, text_eq_inst}
use sproutboat.Base.Dict
use sproutboat.Base.Dict.{Dict, get-filter, filter-some, passing-some}
use sproutboat.Control.Store.{
  Pair, Deployment, Database, belongs, home, drop_deployments, drop_projects,
}
use sproutboat.Control.Store.Deployments.{project_deployment, delete_deployment, delete_project}
use sproutboat.Control.Store.Switching.{
  belongs_iff, demoted, recorded, after_activation, get-after_activation_if,
}
use sproutboat.Control.Store.Pruning.{get-drop_one}
use sproutboat.Control.Store.Valid.{IsValid}
use sproutboat.Control.Store.Releases.{
  Releases, same_project, is_project, is_current, point, withdraw, close_project, Current,
  Implements,
}
use sproutboat.Control.Store.Refine.{same_project_iff, promoted_pointers, promoted_versions}

pub project_at :
    (id : Text) (x : Deployment) (db : Database) (r : Releases)
    → Implements db r
    → Dict.get id db.deployments ≡ some x
    → r.project_of id ≡ some (home x)
project_at id x db r i at = i.versions id ∙ ap (λ o. Option.map home o) at

pub no_project_at :
    (id : Text) (db : Database) (r : Releases)
    → Implements db r
    → Dict.get id db.deployments ≡ none
    → r.project_of id ≡ none
no_project_at id db r i gone = i.versions id ∙ ap (λ o. Option.map home o) gone

-- The state knows a version of the project exactly when the tables do.
pub known :
    (owner project id : Text) (t : Deployment) (db : Database) (r : Releases)
    → Implements db r
    → project_deployment owner project id db ≡ some t
    → (Dict.get id db.deployments ≡ some t)
      × (home t ≡ (owner, project))
      × (is_project (owner, project) (r.project_of id) ≡ true)
unfolding project_deployment
known owner project id t db r i found =
    let (at, b) = passing-some (belongs owner project) _ t found in
    let house = (belongs_iff owner project t).0 b in
    (
      at,
      house,
      ap (λ o. is_project (owner, project) o) (project_at id t db r i at)
          ∙ (same_project_iff (home t) (owner, project)).1 house,
    )

pub unknown :
    (owner project id : Text) (db : Database) (r : Releases)
    → Implements db r
    → project_deployment owner project id db ≡ none
    → is_project (owner, project) (r.project_of id) ≡ false
unfolding project_deployment
unknown owner project id db r i gone = elim (Option-cases (Dict.get id db.deployments)) [
  | inl none_there ↦ ap (λ o. is_project (owner, project) o) (no_project_at id db r i none_there)
  | inr (x, at) ↦
      ap (λ o. is_project (owner, project) o) (project_at id x db r i at)
      ∙ elim (Bool-cases (same_project (home x) (owner, project))) [
        | inr ne ↦ ne
        | inl eq ↦
            let b : belongs owner project x ≡ true =
              (belongs_iff owner project x).1 ((same_project_iff (home x) (owner, project)).0 eq) in
            let found : Dict.passing (λ d. belongs owner project d) (Dict.get id db.deployments)
                ≡ some x =
              rw at (rw b refl) in
            absurd (cc (sym gone ∙ found))
      ]
]

pub after_activation-Implements :
    (owner project id : Text) (t : Deployment) (db : Database) (r : Releases)
    → Implements db r
    → Dict.get id db.deployments ≡ some t
    → home t ≡ (owner, project)
    → Implements (after_activation owner project id t db) (point (owner, project) id r)
after_activation-Implements owner project id t db r i at house =
    let after = after_activation owner project id t db in
    let p =
      subst
        (λ (h : Pair).
          (j : Text)
          → Dict.get j after.deployments ≡ (
              if text_eq id j
              then some (recorded t)
              else Option.map (demoted h.0 h.1) (Dict.get j db.deployments)))
        (sym house) (λ j. get-after_activation_if owner project id j t db) in
    let fits : (x : Deployment) → Dict.get id db.deployments ≡ some x → home x ≡ home t =
      λ x h. let same : some x ≡ some t = sym h ∙ at in ap home (let is : x ≡ t = cc same in is) in
    let versions =
      promoted_versions id (recorded t) db.deployments after.deployments p refl fits r i.versions in
    record {
      versions = λ j. elim (Bool-cases (text_eq id j)) [
        | inl eq ↦
            ap r.project_of (sym ((text_eq_iff id j).0 eq))
            ∙ project_at id t db r i at
            ∙ ap (λ b. if b then some (home t) else r.project_of j) (sym eq)
            ∙ versions j
        | inr ne ↦ ap (λ b. if b then some (home t) else r.project_of j) (sym ne) ∙ versions j
      ];
      pointers = λ q j.
          subst
            (λ (h : Pair).
              ((if same_project h q then some id else r.current q) ≡ some j)
              ↔ Current after.deployments q j)
            house
            (promoted_pointers id (recorded t) db.deployments after.deployments p refl fits r
              i.pointers q j);
    }

-- Rows that stay as they were keep the pointers, if no active row is lost.
pub fewer_pointers :
    (db after : Database) (r : Releases)
    → Implements db r
    → ((j : Text) (x : Deployment)
        → Dict.get j after.deployments ≡ some x
        → Dict.get j db.deployments ≡ some x)
    → (q : Pair) (j : Text)
    → ((x : Deployment)
        → Dict.get j db.deployments ≡ some x
        → x.active ≡ true
        → home x ≡ q
        → Dict.get j after.deployments ≡ some x)
    → (r.current q ≡ some j) ↔ Current after.deployments q j
fewer_pointers db after r i was q j stays = (
  λ h. let (x, at, live, house) = (i.pointers q j).0 h in (x, stays x at live house, live, house),
  λ (x, at, live, house). (i.pointers q j).1 (x, was j x at, live, house),
)

pub dropped_was :
    (id j : Text) (x : Deployment) (db : Database)
    → Dict.Unique db.deployments
    → Dict.get j (drop_deployments (λ k _. text_eq k id) db).deployments ≡ some x
    → (Dict.get j db.deployments ≡ some x) × (text_eq id j ≡ false)
dropped_was id j x db u h = elim (Bool-cases (text_eq id j)) [
  | inl eq ↦
      let out : none ≡ some x = sym (get-drop_one j id db u ∙ rw eq refl) ∙ h in absurd (cc out)
  | inr ne ↦ (sym (get-drop_one j id db u ∙ rw ne refl) ∙ h, ne)
]

gone_at :
    (id j : Text) (db : Database)
    → Dict.Unique db.deployments
    → text_eq id j ≡ true
    → Dict.get j (drop_deployments (λ k _. text_eq k id) db).deployments ≡ none
gone_at id j db u eq = get-drop_one j id db u ∙ rw eq refl

stays_at :
    (id j : Text) (db : Database)
    → Dict.Unique db.deployments
    → text_eq id j ≡ false
    → Dict.get j (drop_deployments (λ k _. text_eq k id) db).deployments ≡ Dict.get j db.deployments
stays_at id j db u ne = get-drop_one j id db u ∙ rw ne refl

dropped-Implements :
    (id : Text) (row : Deployment) (db : Database) (r : Releases)
    → IsValid db
    → Implements db r
    → Dict.get id db.deployments ≡ some row
    → row.active ≡ false
    → Implements
        (drop_deployments (λ k _. text_eq k id) db)
        (record r { project_of = λ j. if text_eq id j then none else r.project_of j })
dropped-Implements id row db r v i at idle =
    let after = drop_deployments (λ k _. text_eq k id) db in
    record {
      versions = λ j. elim (Bool-cases (text_eq id j)) [
        | inl eq ↦ rw eq (sym (ap (λ o. Option.map home o) (gone_at id j db v.ids eq)))
        | inr ne ↦
            rw ne (i.versions j ∙ sym (ap (λ o. Option.map home o) (stays_at id j db v.ids ne)))
      ];
      pointers = λ q j.
          fewer_pointers db after r i (λ k x h. (dropped_was id k x db v.ids h).0) q j
            (λ x here live house. elim (Bool-cases (text_eq id j)) [
              | inr ne ↦ get-drop_one j id db v.ids ∙ rw ne here
              | inl eq ↦
                  let same : some row ≡ some x =
                    sym at ∙ ap (λ k. Dict.get k db.deployments) ((text_eq_iff id j).0 eq) ∙ here in
                  absurd (
                    cc (
                      sym idle
                      ∙ ap (λ (y : Deployment). y.active) (let is : row ≡ x = cc same in is)
                      ∙ live))
            ]);
    }

pub delete_deployment-Implements :
    (owner project id : Text) (db : Database) (r : Releases)
    → IsValid db
    → Implements db r
    → Implements (delete_deployment owner project id db).0 (withdraw (owner, project) id r)
unfolding delete_deployment
delete_deployment-Implements owner project id db r v i =
    elim (Option-cases (project_deployment owner project id db)) [
      | inl gone ↦ rw (gone, unknown owner project id db r i gone, delete_deployment) i
      | inr (row, found) ↦
          let (at, house, yes_known) = known owner project id row db r i found in
          elim (Bool-cases (row.active)) [
            | inl live ↦
                let points : r.current (owner, project) ≡ some id =
                  (i.pointers (owner, project) id).1 (row, at, live, house) in
                rw (found, yes_known, points, text_eq_self id, delete_deployment) (rw live i)
            | inr idle ↦
                let off : is_current id (r.current (owner, project)) ≡ false =
                  elim (Option-cases (r.current (owner, project))) [
                    | inl nothing ↦ rw nothing refl
                    | inr (j, points) ↦ rw points (elim (Bool-cases (text_eq j id)) [
                      | inr ne ↦ ne
                      | inl eq ↦
                          let (x, here, live, _) = (i.pointers (owner, project) j).0 points in
                          let same : some row ≡ some x =
                            sym at
                            ∙ ap (λ k. Dict.get k db.deployments) (sym ((text_eq_iff j id).0 eq))
                            ∙ here in
                          absurd (
                            cc (
                              sym idle
                              ∙ ap (λ (y : Deployment). y.active) (let is : row ≡ x = cc same in is)
                              ∙ live))
                    ])
                  ] in
                rw (found, yes_known, off, delete_deployment)
                  (rw idle (dropped-Implements id row db r v i at idle))
          ]
    ]
