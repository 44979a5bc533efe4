-- ===== src/Control/Store/Pruning.antt =====
-- apps/control/src/store.ts, `pruneProjectDeployments`: which versions stay.
use sproutboat.Base.{
  ℕ, ◌≤◌, ltb, leb→le, ◌≡◌, sym, ap, refl, ◌∙◌, Bool, true, false, ◌&&◌, not, none, some, List, [],
  ◌∷◌, length, if◌then◌else◌, arith, if_ind, inl, inr, Bool-cases, Option-cases, pair_eq,
}
use sproutboat.Base.Codes.{Text, text_eq, text_eq_iff, text_eq_inst}
use sproutboat.Base.Dict
use sproutboat.Base.Dict.{Dict, get-filter, filter-some, filter-Unique, passing}
use sproutboat.Base.Order.{first, slice, Sorted, sort-Sorted}
use sproutboat.Base.Ranking.{
  get-sort, sort-Unique, filter-Sorted, get-slice, slice-get, get-slice-none, length-first,
  first-slice-Sorted,
}
use sproutboat.Control.Store.{Pair, Deployment, Database, belongs, drop_deployments}
use sproutboat.Control.Store.Deployments.{
  newer, project_deployments, doomed_versions, delete_rows, prune_project_deployments,
}
use sproutboat.Control.Store.Valid.{IsValid, drop_deployments-IsValid}

-- An inactive version of the project.
abbrev pub is_idle_version : Text → Text → Deployment → Bool
is_idle_version owner project d = belongs owner project d && not d.active

-- `survivors` are the inactive versions of a project that a pruning to `kept` leaves.
pub record Prunes (owner project : Text) (kept : ℕ) (db after : Database)
    (survivors : Dict Text Deployment) : Type 0 where
  pub others :
      (j : Text) (d : Deployment)
      → Dict.get j db.deployments ≡ some d
      → is_idle_version owner project d ≡ false
      → Dict.get j after.deployments ≡ some d
  pub picked :
      (j : Text) (d : Deployment)
      → Dict.get j db.deployments ≡ some d
      → is_idle_version owner project d ≡ true
      → Dict.get j after.deployments ≡ Dict.get j survivors
  pub absent : (j : Text) → Dict.get j db.deployments ≡ none → Dict.get j after.deployments ≡ none
  pub few : length survivors ≤ kept
  pub full :
      (j : Text) (d : Deployment)
      → Dict.get j db.deployments ≡ some d
      → Dict.get j after.deployments ≡ none
      → length survivors ≡ kept
  pub newest :
      (j i : Text) (d e : Deployment)
      → Dict.get j db.deployments ≡ some d
      → Dict.get j after.deployments ≡ none
      → Dict.get i survivors ≡ some e
      → d.deployed_at ≤ e.deployed_at

pub get-drop_one :
    (j id : Text) (db : Database)
    → Dict.Unique db.deployments
    → Dict.get j (drop_deployments (λ i _. text_eq i id) db).deployments
      ≡ (if text_eq id j then none else Dict.get j db.deployments)
unfolding drop_deployments
get-drop_one j id db u =
    get-filter j (λ i _. not (text_eq i id)) db.deployments u
    ∙ elim (Option-cases (Dict.get j db.deployments)) [
      | inl gone ↦ rw gone (ground arith)
      | inr (d, at) ↦ rw at (ground (arith, text_eq_iff j id, text_eq_iff id j))
    ]

pub get-delete_rows :
    (j : Text) (rows : Dict Text Deployment) (db : Database)
    → IsValid db
    → Dict.get j (delete_rows rows db).deployments
      ≡ (if Dict.has j rows then none else Dict.get j db.deployments)
unfolding delete_rows Dict.has Dict.get
get-delete_rows j [] db v = refl
get-delete_rows j ((id, _) ∷ rows) db v =
    let dropped = drop_deployments (λ i _. text_eq i id) db in
    ground (
      arith,
      get-delete_rows j rows dropped (drop_deployments-IsValid _ db v),
      get-drop_one j id db v.ids,
    )

newer_total : (x y : Text × Deployment) → newer x y ≡ false → newer y x ≡ true
newer_total x y h = ground (arith, h)

newer_trans : (x y z : Text × Deployment) → newer x y ≡ true → newer y z ≡ true → newer x z ≡ true
newer_trans x y z h k = ground (arith, h, k)

module _ (owner project : Text) (db : Database) (v : IsValid db) where
  -- The inactive versions, newest first.
  abbrev idle_rows : Dict Text Deployment
  idle_rows = Dict.filter (λ _ d. not d.active) (project_deployments owner project db)

  ours : Dict.Unique (Dict.filter (λ _ d. belongs owner project d) db.deployments)
  ours = filter-Unique (λ _ d. belongs owner project d) db.deployments v.ids

  listed-Unique : Dict.Unique (project_deployments owner project db)
  unfolding project_deployments
  listed-Unique =
      sort-Unique newer (Dict.filter (λ _ d. belongs owner project d) db.deployments) ours

  idle_rows-Unique : Dict.Unique idle_rows
  idle_rows-Unique =
      filter-Unique (λ _ d. not d.active) (project_deployments owner project db) listed-Unique

  idle_rows-Sorted : Sorted newer idle_rows
  unfolding project_deployments
  idle_rows-Sorted =
      filter-Sorted newer (λ _ d. not d.active) (project_deployments owner project db)
        (sort-Sorted newer newer_total newer_trans
          (Dict.filter (λ _ d. belongs owner project d) db.deployments))

  get-idle_rows :
      (j : Text)
      → Dict.get j idle_rows
        ≡ passing
            (λ d. not d.active)
            (passing (λ d. belongs owner project d) (Dict.get j db.deployments))
  unfolding project_deployments
  get-idle_rows j =
      get-filter j (λ _ d. not d.active) (project_deployments owner project db) listed-Unique
      ∙ ap (λ o. passing (λ d. not d.active) o)
          (get-sort newer j (Dict.filter (λ _ d. belongs owner project d) db.deployments) ours
            ∙ get-filter j (λ _ d. belongs owner project d) db.deployments v.ids)

  idle_row :
      (j : Text) (d : Deployment)
      → Dict.get j db.deployments ≡ some d
      → Dict.get j idle_rows ≡ (if is_idle_version owner project d then some d else none)
  idle_row j d at = elim (Bool-cases (belongs owner project d)) [
    | inl b ↦ get-idle_rows j ∙ rw at (rw b (ground arith))
    | inr ne ↦ get-idle_rows j ∙ rw at (rw ne refl)
  ]

  was_listed :
      (j : Text) (x : Deployment)
      → Dict.get j (project_deployments owner project db) ≡ some x
      → (Dict.get j db.deployments ≡ some x) × (belongs owner project x ≡ true)
  unfolding project_deployments
  was_listed j x h =
      filter-some j (λ _ d. belongs owner project d) x db.deployments v.ids
        (sym (get-sort newer j (Dict.filter (λ _ d. belongs owner project d) db.deployments) ours)
          ∙ h)

  module _ (kept : ℕ) (positive : ltb kept 1 ≡ false) where
    abbrev survivors_of : Dict Text Deployment
    survivors_of = first kept idle_rows

    abbrev pruned_db : Database
    pruned_db = (prune_project_deployments owner project kept db).0

    get-pruned :
        (j : Text)
        → Dict.get j pruned_db.deployments
          ≡ (if Dict.has j (slice kept idle_rows) then none else Dict.get j db.deployments)
    unfolding prune_project_deployments doomed_versions
    get-pruned j =
        if_ind
          (λ (z : Database × List Pair).
            Dict.get j z.0.deployments
            ≡ (if Dict.has j (slice kept idle_rows) then none else Dict.get j db.deployments))
          (ltb kept 1) (db, []) _ (λ zero. absurd (cc (sym zero ∙ positive)))
          (λ _. get-delete_rows j (slice kept idle_rows) db v)

    get-pruned_kept :
        (j : Text)
        → Dict.get j (slice kept idle_rows) ≡ none
        → Dict.get j pruned_db.deployments ≡ Dict.get j db.deployments
    unfolding Dict.has
    get-pruned_kept j out = get-pruned j ∙ rw (out, Dict.has) refl

    get-pruned_gone :
        (j : Text) (d : Deployment)
        → Dict.get j (slice kept idle_rows) ≡ some d
        → Dict.get j pruned_db.deployments ≡ none
    unfolding Dict.has
    get-pruned_gone j d there = get-pruned j ∙ rw (there, Dict.has) refl

    -- What was there and is no more was one of the sliced rows.
    gone :
        (j : Text) (d : Deployment)
        → Dict.get j db.deployments ≡ some d
        → Dict.get j pruned_db.deployments ≡ none
        → Dict.get j (slice kept idle_rows) ≡ some d
    gone j d at h = elim (Option-cases (Dict.get j (slice kept idle_rows))) [
      | inl out ↦ absurd (cc (sym (get-pruned_kept j out ∙ at) ∙ h))
      | inr (x, here) ↦
          let (whole, _, _) = slice-get j x kept idle_rows idle_rows-Unique here in
          let (before, _) =
            filter-some j (λ _ d. not d.active) x (project_deployments owner project db)
              listed-Unique whole in
          let (at_x, _) = was_listed j x before in
          let same : some x ≡ some d = sym at_x ∙ at in here ∙ same
    ]

    absent_lem :
        (j : Text) → Dict.get j db.deployments ≡ none → Dict.get j pruned_db.deployments ≡ none
    absent_lem j h =
        get-pruned j
        ∙ if_ind (λ z. z ≡ none) (Dict.has j (slice kept idle_rows)) none
            (Dict.get j db.deployments) (λ _. refl) (λ _. h)

    others_lem :
        (j : Text) (d : Deployment)
        → Dict.get j db.deployments ≡ some d
        → is_idle_version owner project d ≡ false
        → Dict.get j pruned_db.deployments ≡ some d
    others_lem j d at ne =
        let out = get-slice-none j kept idle_rows (idle_row j d at ∙ rw ne refl) in
        get-pruned_kept j out ∙ at

    picked_lem :
        (j : Text) (d : Deployment)
        → Dict.get j db.deployments ≡ some d
        → is_idle_version owner project d ≡ true
        → Dict.get j pruned_db.deployments ≡ Dict.get j survivors_of
    picked_lem j d at idle =
        let listed : Dict.get j idle_rows ≡ some d = idle_row j d at ∙ rw idle refl in
        elim (get-slice j d kept idle_rows listed) [
          | inr (late, rest) ↦ get-pruned_gone j d rest ∙ sym late
          | inl early ↦ elim (Option-cases (Dict.get j (slice kept idle_rows))) [
            | inl out ↦ get-pruned_kept j out ∙ at ∙ sym early
            | inr (x, here) ↦
                let (_, apart, _) = slice-get j x kept idle_rows idle_rows-Unique here in
                absurd (cc (sym apart ∙ early))
          ]
        ]

-- In sound tables a pruning to at least one version keeps every other row as it was, the active
-- version too; of the project's inactive versions it leaves at most `kept`; when it removes any,
-- exactly `kept` are left, and none of those is older than one that is removed.
pub prune_project_deployments-Prunes :
    (owner project : Text) (kept : ℕ) (db : Database)
    → IsValid db
    → 1 ≤ kept
    → (survivors : Dict Text Deployment) × Prunes owner project kept db
        (prune_project_deployments owner project kept db).0
        survivors
prune_project_deployments-Prunes owner project kept db v h =
    let positive : ltb kept 1 ≡ false = ground arith in
    let rows = idle_rows owner project db v in
    (
      first kept rows,
      record {
        others = others_lem owner project db v kept positive;
        picked = picked_lem owner project db v kept positive;
        absent = absent_lem owner project db v kept positive;
        few = length-first kept rows;
        full = λ j d at out.
            (slice-get j d kept rows (idle_rows-Unique owner project db v)
              (gone owner project db v kept positive j d at out)).2;
        newest = λ j i d e at out here. leb→le d.deployed_at e.deployed_at (
            first-slice-Sorted newer kept rows i j e d (idle_rows-Sorted owner project db v) here
              (gone owner project db v kept positive j d at out));
      },
    )
