-- ===== src/Control/Store/Switching.antt =====
-- apps/control/src/store.ts: `recordDeployment` and `activateDeployment`, row by row.
use sproutboat.Base.{
  ◌≡◌, sym, ap, refl, ◌∙◌, ◌↔◌, true, false, none, some, List, [], ◌∷◌, if◌then◌else◌, arith,
  if_ind, inl, inr, Bool-cases, pair_eq,
}
use mathlib.Core.Option
use sproutboat.Base.Codes.{Text, text_eq, text_eq_iff, text_eq_inst}
use sproutboat.Base.Dict
use sproutboat.Base.Dict.{Dict, get-update, get-insert, exists-never, exists-update, passing-some}
use sproutboat.Control.Store.{
  Pair, Deployment, Database, belongs, ref_of, home, insert_new, meets_active, insert_deployment,
  set_active, set_inactive,
}
use sproutboat.Control.Store.Deployments.{
  project_deployment, link_resources, record_deployment, activate_deployment,
}

pub belongs_iff :
    (owner project : Text) (d : Deployment)
    → (belongs owner project d ≡ true) ↔ (home d ≡ (owner, project))
unfolding belongs
belongs_iff owner project d =
    ground (arith, text_eq_iff d.owner_id owner, text_eq_iff d.project project)

-- A row as it is when the version of an id is the active one of its project.
abbrev pub switched : Text → Text → Text → Text → Deployment → Deployment
switched owner project id j d =
    if belongs owner project d then record d { active = text_eq id j } else d

abbrev pub demoted : Text → Text → Deployment → Deployment
demoted owner project d = if belongs owner project d then record d { active = false } else d

-- After a project's rows are made inactive, no index stands in the way of an active one.
set_inactive-meets_active :
    (id : Text) (d : Deployment) (db : Database)
    → meets_active id d (set_inactive d.owner_id d.project db).deployments ≡ false
unfolding meets_active set_inactive
set_inactive-meets_active id d db =
    exists-update _ _ db.deployments
    ∙ exists-never _ db.deployments (λ j e. elim (Bool-cases (belongs d.owner_id d.project e)) [
      | inl t ↦ rw t (ground arith)
      | inr ne ↦ rw (ne, ne) (ground arith)
    ])

pub insert_new-has {ℓ} :
    {V : Type ℓ} (key : Pair) (v : V) (table : Dict Pair V)
    → Dict.has key (insert_new key v table) ≡ true
unfolding insert_new Dict.has
insert_new-has key v table = ground (arith, Dict.get-insert_self key v table)

pub insert_new-keeps {ℓ} :
    {V : Type ℓ} (key j : Pair) (v : V) (table : Dict Pair V)
    → Dict.has j table ≡ true
    → Dict.has j (insert_new key v table) ≡ true
unfolding insert_new
insert_new-keeps key j v table h =
    if_ind (λ z. Dict.has j z ≡ true) (Dict.has key table) table _ (λ _. h)
      (λ _. Dict.has-insert key j v table h)

pub insert_new-Unique {ℓ} :
    {V : Type ℓ} (key : Pair) (v : V) (table : Dict Pair V)
    → Dict.Unique table
    → Dict.Unique (insert_new key v table)
unfolding insert_new
insert_new-Unique key v table u =
    if_ind (λ z. Dict.Unique z) (Dict.has key table) table _ (λ _. u)
      (λ _. Dict.insert-Unique key v table u)

pub link_resources-projects :
    (id : Text) (rs : List Text) (db : Database) → (link_resources id rs db).projects ≡ db.projects
unfolding link_resources
link_resources-projects id [] db = refl
link_resources-projects id (r ∷ rs) db = link_resources-projects id rs _

pub link_resources-artifacts :
    (id : Text) (rs : List Text) (db : Database)
    → (link_resources id rs db).artifacts ≡ db.artifacts
unfolding link_resources
link_resources-artifacts id [] db = refl
link_resources-artifacts id (r ∷ rs) db = link_resources-artifacts id rs _

pub link_resources-deployments :
    (id : Text) (rs : List Text) (db : Database)
    → (link_resources id rs db).deployments ≡ db.deployments
unfolding link_resources
link_resources-deployments id [] db = refl
link_resources-deployments id (r ∷ rs) db = link_resources-deployments id rs _

pub get-set_inactive :
    (j owner project : Text) (db : Database)
    → Dict.get j (set_inactive owner project db).deployments
      ≡ Option.map (demoted owner project) (Dict.get j db.deployments)
unfolding set_inactive
get-set_inactive j owner project db = get-update j _ db.deployments

insert_deployment-some :
    (id : Text) (d : Deployment) (db : Database)
    → Dict.has id db.deployments ≡ false
    → Dict.has (ref_of d) db.artifacts ≡ true
    → Dict.has (home d) db.projects ≡ true
    → meets_active id d db.deployments ≡ false
    → insert_deployment id d db ≡ some (record db { deployments = Dict.insert id d db.deployments })
unfolding insert_deployment
insert_deployment-some id d db new stored housed free =
    rw (new, stored, housed, free) (ground arith)

insert_deployment-none :
    (id : Text) (d : Deployment) (db : Database)
    → Dict.has id db.deployments ≡ true
    → insert_deployment id d db ≡ none
unfolding insert_deployment
insert_deployment-none id d db there = rw there refl

set_inactive-has :
    (j owner project : Text) (db : Database)
    → Dict.has j (set_inactive owner project db).deployments ≡ Dict.has j db.deployments
set_inactive-has j owner project db =
    Dict.has-get-map j (demoted owner project) _ db.deployments
      (get-set_inactive j owner project db)

-- The version that `recordDeployment` records.
abbrev pub recorded : Deployment → Deployment
recorded input = record input { active = true }

abbrev with_parents : Deployment → Database → Database
with_parents d db = record db {
  projects =
      insert_new (d.owner_id, d.project)
        (record { username = d.username; created_at = d.deployed_at }) db.projects;
  artifacts = insert_new (ref_of d) d.deployed_at db.artifacts;
}

-- The tables after the INSERT.
abbrev pub after_insert : Text → Deployment → Database → Database
after_insert id d db =
    let inactive = set_inactive d.owner_id d.project (with_parents d db) in
    record inactive { deployments = Dict.insert id d inactive.deployments }

pub record_deployment-some :
    (id : Text) (input : Deployment) (rs : List Text) (db : Database)
    → Dict.has id db.deployments ≡ false
    → record_deployment id input rs db
      ≡ some (link_resources id rs (after_insert id (recorded input) db), recorded input)
unfolding record_deployment set_inactive
record_deployment-some id input rs db new =
    let d = recorded input in
    let inactive = set_inactive d.owner_id d.project (with_parents d db) in
    rw
      (
        insert_deployment-some id d inactive
            (set_inactive-has id d.owner_id d.project (with_parents d db) ∙ new)
            (insert_new-has (ref_of d) d.deployed_at db.artifacts)
            (insert_new-has (home d) _ db.projects)
            (set_inactive-meets_active id d (with_parents d db)),
        record_deployment,
      )
      refl

pub record_deployment-none :
    (id : Text) (input : Deployment) (rs : List Text) (db : Database)
    → Dict.has id db.deployments ≡ true
    → record_deployment id input rs db ≡ none
unfolding record_deployment
record_deployment-none id input rs db there =
    let d = recorded input in
    rw
      (
        insert_deployment-none id d (set_inactive d.owner_id d.project (with_parents d db))
            (set_inactive-has id d.owner_id d.project (with_parents d db) ∙ there),
        record_deployment,
      )
      refl

-- Recording a version throws if and only if its id is in use: its parents are inserted before it,
-- and the active version of its project is set inactive before the unique index is met.
pub record_deployment_iff :
    (id : Text) (input : Deployment) (rs : List Text) (db : Database)
    → (record_deployment id input rs db ≡ none) ↔ (Dict.has id db.deployments ≡ true)
record_deployment_iff id input rs db = elim (Bool-cases (Dict.has id db.deployments)) [
  | inl there ↦ (λ h. there, λ h. record_deployment-none id input rs db there)
  | inr new ↦ (
    λ h. absurd (cc (sym (record_deployment-some id input rs db new) ∙ h)),
    λ h. absurd (cc (sym h ∙ new)),
  )
]

set_active-some :
    (id : Text) (d : Deployment) (db : Database)
    → Dict.get id db.deployments ≡ some d
    → meets_active id d db.deployments ≡ false
    → set_active id db
      ≡ some
          (record db { deployments = Dict.insert id (record d { active = true }) db.deployments })
unfolding set_active
set_active-some id d db at free = rw (at, set_active) (rw free refl)

-- The tables after `activateDeployment`.
abbrev pub after_activation : Text → Text → Text → Deployment → Database → Database
after_activation owner project id t db =
    let inactive = set_inactive owner project db in
    record inactive { deployments = Dict.insert id (recorded t) inactive.deployments }

demoted-belongs :
    (owner project : Text) (t : Deployment)
    → belongs owner project t ≡ true
    → demoted owner project t ≡ record t { active = false }
demoted-belongs owner project t b = rw b refl

pub activate_deployment-some :
    (owner project id : Text) (t : Deployment) (db : Database)
    → Dict.get id db.deployments ≡ some t
    → belongs owner project t ≡ true
    → activate_deployment owner project id db
      ≡ some (after_activation owner project id t db, some (recorded t))
unfolding project_deployment activate_deployment set_inactive
activate_deployment-some owner project id t db at b =
    let found : project_deployment owner project id db ≡ some t = rw at (rw b refl) in
    let idle : Deployment = record t { active = false } in
    let there =
      get-set_inactive id owner project db
      ∙ ap (λ o. Option.map (demoted owner project) o) at
      ∙ ap (λ d. some d) (demoted-belongs owner project t b) in
    let same = (belongs_iff owner project t).0 b in
    let free : meets_active id idle (set_inactive owner project db).deployments ≡ false =
      ap (λ (h : Pair). meets_active id idle (set_inactive h.0 h.1 db).deployments) (sym same)
      ∙ set_inactive-meets_active id idle db in
    rw (found, activate_deployment)
      (rw (set_active-some id idle (set_inactive owner project db) there free, activate_deployment)
        refl)

get-after_activation :
    (owner project id j : Text) (t : Deployment) (db : Database)
    → Dict.get id db.deployments ≡ some t
    → belongs owner project t ≡ true
    → Dict.get j (after_activation owner project id t db).deployments
      ≡ Option.map (switched owner project id j) (Dict.get j db.deployments)
get-after_activation owner project id j t db at b = elim (Bool-cases (text_eq id j)) [
  | inl same ↦
      let here : Dict.get j db.deployments ≡ some t =
        ap (λ i. Dict.get i db.deployments) (sym ((text_eq_iff id j).0 same)) ∙ at in
      rw (get-insert id j (recorded t) (set_inactive owner project db).deployments, same, here)
        (rw (b, same) refl)
  | inr ne ↦
      rw
        (
          get-insert id j (recorded t) (set_inactive owner project db).deployments,
          ne,
          get-set_inactive j owner project db,
        )
        (ap
          (λ b.
            Option.map
              (λ (d : Deployment). if belongs owner project d then record d { active = b } else d)
              (Dict.get j db.deployments))
          (sym ne))
]

-- An id that is no version of the project changes nothing.
pub activate_deployment-none :
    (owner project id : Text) (db : Database)
    → project_deployment owner project id db ≡ none
    → activate_deployment owner project id db ≡ some (db, none)
unfolding activate_deployment
activate_deployment-none owner project id db gone = rw (gone, activate_deployment) refl

-- Activating a version that is one of the project's never throws and returns that version, active.
-- It leaves every version of the project inactive but this one, every other row as it was, and
-- neither adds nor removes a row.
pub activate_deployment-switched :
    (owner project id : Text) (t : Deployment) (db : Database)
    → project_deployment owner project id db ≡ some t
    → (after : Database) × (activate_deployment owner project id db
        ≡ some (after, some (record t { active = true })))
      × ((j : Text)
          → Dict.get j after.deployments
            ≡ Option.map (switched owner project id j) (Dict.get j db.deployments))
unfolding project_deployment
activate_deployment-switched owner project id t db found =
    let (at, b) = passing-some (belongs owner project) _ t found in
    (
      after_activation owner project id t db,
      activate_deployment-some owner project id t db at b,
      λ j. get-after_activation owner project id j t db at b,
    )

-- The rows after a version was recorded.
pub get-after_insert :
    (id j : Text) (d : Deployment) (db : Database)
    → Dict.get j (after_insert id d db).deployments ≡ (
        if text_eq id j
        then some d
        else Option.map (demoted d.owner_id d.project) (Dict.get j db.deployments))
get-after_insert id j d db =
    rw
      (
        get-insert id j d (set_inactive d.owner_id d.project (with_parents d db)).deployments,
        get-set_inactive j d.owner_id d.project (with_parents d db),
      )
      refl

pub get-after_activation_if :
    (owner project id j : Text) (t : Deployment) (db : Database)
    → Dict.get j (after_activation owner project id t db).deployments ≡ (
        if text_eq id j
        then some (recorded t)
        else Option.map (demoted owner project) (Dict.get j db.deployments))
get-after_activation_if owner project id j t db =
    rw
      (
        get-insert id j (recorded t) (set_inactive owner project db).deployments,
        get-set_inactive j owner project db,
      )
      refl
