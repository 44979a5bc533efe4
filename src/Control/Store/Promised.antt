-- ===== src/Control/Store/Promised.antt =====
-- apps/control/src/store.ts: any sequence of operations on versions.
use sproutboat.Base.{
  ◌≡◌, sym, ap, refl, ◌∙◌, Option, none, some, List, [], ◌∷◌, arith, inl, inr, Bool-cases,
  Option-cases, pair_eq,
}
use mathlib.Core.Path.{subst}
use sproutboat.Base.Codes.{Text, text_eq_inst}
use sproutboat.Base.Dict
use sproutboat.Base.Dict.{Dict, passing-some}
use sproutboat.Control.Store.{Deployment, Database, belongs, home}
use sproutboat.Control.Store.Deployments.{
  project_deployment, record_deployment, activate_deployment, delete_deployment, delete_project,
  link_resources,
}
use sproutboat.Control.Store.Switching.{
  recorded, after_insert, after_activation, record_deployment-some, record_deployment-none,
  activate_deployment-some, activate_deployment-none, link_resources-deployments,
}
use sproutboat.Control.Store.Valid.{IsValid, delete_deployment-IsValid, drop_projects-IsValid}
use sproutboat.Control.Store.Promotion.{record_deployment-IsValid, activate_deployment-IsValid}
use sproutboat.Control.Store.Releases.{
  Releases, same_project, release, roll_back, point, withdraw, close_project, Operation,
  record_version, activate_version, delete_version, remove_project, promise, promises, tables,
  perform, perform_all, Implements,
}
use sproutboat.Control.Store.Refine.{after_insert-Implements}
use sproutboat.Control.Store.Refinement.{
  known, unknown, after_activation-Implements, delete_deployment-Implements,
}
use sproutboat.Control.Store.Refinement.Closing.{delete_project-Implements}

-- What is kept depends on the deployments alone.
same_rows :
    (a b : Database) (r : Releases)
    → b.deployments ≡ a.deployments
    → Implements a r
    → Implements b r
same_rows a b r same i =
    subst
      (λ (t : Dict Text Deployment). Implements (record a { deployments = t }) r → Implements b r)
      same (λ j. record { versions = j.versions; pointers = j.pointers }) i

record_version-Implements :
    (id : Text) (input : Deployment) (rs : List Text) (db after : Database) (r : Releases)
    → Implements db r
    → tables (record_deployment id input rs db) ≡ some after
    → Implements after (release (home input) id r)
record_version-Implements id input rs db after r i e =
    elim (Bool-cases (Dict.has id db.deployments)) [
      | inl there ↦
          absurd (cc (sym (ap (λ o. tables o) (record_deployment-none id input rs db there)) ∙ e))
      | inr new ↦
          let d = recorded input in
          let done = link_resources id rs (after_insert id d db) in
          let same : some done ≡ some after =
            sym (ap (λ o. tables o) (record_deployment-some id input rs db new)) ∙ e in
          subst (λ z. Implements z (release (home input) id r))
            (let is : done ≡ after = cc same in is)
            (same_rows (after_insert id d db) done (release (home input) id r)
              (link_resources-deployments id rs (after_insert id d db))
              (after_insert-Implements id d db r (Dict.get-has-false id db.deployments new) refl i))
    ]

activate_version-Implements :
    (owner project id : Text) (db after : Database) (r : Releases)
    → Implements db r
    → tables (activate_deployment owner project id db) ≡ some after
    → Implements after (roll_back (owner, project) id r)
unfolding project_deployment
activate_version-Implements owner project id db after r i e =
    elim (Option-cases (project_deployment owner project id db)) [
      | inl gone ↦
          let same : some db ≡ some after =
            sym (ap (λ o. tables o) (activate_deployment-none owner project id db gone)) ∙ e in
          rw (unknown owner project id db r i gone)
            (subst (λ z. Implements z r) (let is : db ≡ after = cc same in is) i)
      | inr (t, found) ↦
          let (at, house, is_known) = known owner project id t db r i found in
          let (_, b) = passing-some (belongs owner project) _ t found in
          let done = after_activation owner project id t db in
          let same : some done ≡ some after =
            sym (ap (λ o. tables o) (activate_deployment-some owner project id t db at b)) ∙ e in
          rw is_known (
            subst (λ z. Implements z (point (owner, project) id r))
              (let is : done ≡ after = cc same in is)
              (after_activation-Implements owner project id t db r i at house))
    ]

-- An operation that does not throw does what it promises.
pub perform-Implements :
    (op : Operation) (db after : Database) (r : Releases)
    → IsValid db
    → Implements db r
    → perform op db ≡ some after
    → Implements after (promise op r)
unfolding perform
perform-Implements (record_version id input rs) db after r v i e =
    record_version-Implements id input rs db after r i e
perform-Implements (activate_version owner project id) db after r v i e =
    activate_version-Implements owner project id db after r i e
perform-Implements (delete_version owner project id) db after r v i e =
    subst (λ z. Implements z (withdraw (owner, project) id r))
      (let is : (delete_deployment owner project id db).0 ≡ after = cc e in is)
      (delete_deployment-Implements owner project id db r v i)
perform-Implements (remove_project owner project) db after r v i e =
    subst (λ z. Implements z (close_project (owner, project) r))
      (let is : (delete_project owner project db).0 ≡ after = cc e in is)
      (delete_project-Implements owner project db r v i)

tables-some {ℓ} :
    {R : Type ℓ} (o : Option (Database × R)) (after : Database)
    → tables o ≡ some after
    → (x : R) × (o ≡ some (after, x))
tables-some none after e = absurd (cc e)
tables-some (some (db, x)) after e = (x, let is : db ≡ after = cc e in ap (λ z. some (z, x)) is)

perform-IsValid :
    (op : Operation) (db after : Database) → IsValid db → perform op db ≡ some after → IsValid after
unfolding perform delete_project
perform-IsValid (record_version id input rs) db after v e =
    let (d, same) = tables-some (record_deployment id input rs db) after e in
    record_deployment-IsValid id input rs db after d same v
perform-IsValid (activate_version owner project id) db after v e =
    let (d, same) = tables-some (activate_deployment owner project id db) after e in
    activate_deployment-IsValid owner project id db after d same v
perform-IsValid (delete_version owner project id) db after v e =
    subst (λ z. IsValid z) (let is : (delete_deployment owner project id db).0 ≡ after = cc e in is)
      (delete_deployment-IsValid owner project id db v)
perform-IsValid (remove_project owner project) db after v e =
    subst (λ z. IsValid z) (let is : (delete_project owner project db).0 ≡ after = cc e in is)
      (drop_projects-IsValid (λ key. same_project key (owner, project)) db v)

-- Tables that flag active rows refine projects that point at their current version: from sound
-- tables that keep a state of the promise, after any sequence of recordings, activations, version
-- and project deletions that does not throw they keep the state that the promise prescribes.
pub perform_all-Implements :
    (ops : List Operation) (db after : Database) (r : Releases)
    → IsValid db
    → Implements db r
    → perform_all ops db ≡ some after
    → Implements after (promises ops r)
unfolding perform_all
perform_all-Implements [] db after r v i e =
    subst (λ z. Implements z r) (let is : db ≡ after = cc e in is) i
perform_all-Implements (op ∷ ops) db after r v i e = elim (Option-cases (perform op db)) [
  | inl threw ↦ absurd (ground (arith, e, threw))
  | inr (next, did) ↦
      perform_all-Implements ops next after (promise op r) (perform-IsValid op db next v did)
        (perform-Implements op db next r v i did) (ground (arith, e, did))
]
