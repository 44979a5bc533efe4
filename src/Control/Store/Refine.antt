-- ===== src/Control/Store/Refine.antt =====
-- apps/control/src/store.ts: the operations on versions keep what they promise.
use sproutboat.Base.{
  ◌≡◌, ◌↔◌, sym, ap, refl, ◌∙◌, true, false, none, some, if◌then◌else◌, arith, inl, inr, Bool-cases,
  Option-cases, pair_eq,
}
use mathlib.Core.Option
use mathlib.Core.Path.{subst}
use sproutboat.Base.Codes.{Text, text_eq, text_eq_iff, text_eq_inst}
use sproutboat.Base.Dict
use sproutboat.Base.Dict.{Dict, get-filter, filter-some, passing-some}
use sproutboat.Control.Store.{Pair, Deployment, Database, belongs, home}
use sproutboat.Control.Store.Switching.{belongs_iff, demoted, after_insert, get-after_insert}
use sproutboat.Control.Store.Promotion.{
  Promotes, origin, promoted, alone, demoted-home, demoted-active,
}
use sproutboat.Control.Store.Releases.{Releases, same_project, release, Current, Implements}

pub same_project_iff : (a b : Pair) → (same_project a b ≡ true) ↔ (a ≡ b)
same_project_iff a b = pair_eq.beq_iff a b

module _ (id : Text) (d : Deployment) (m n : Dict Text Deployment) (p : Promotes id d m n)
    (live : d.active ≡ true)
    (fits : (x : Deployment) → Dict.get id m ≡ some x → home x ≡ home d) where
  promoted_here : (j : Text) → Current n (home d) j ↔ (id ≡ j)
  promoted_here j = (
    λ (e, at, active, house). alone id d m n p j e at active (sym house),
    λ same. (d, p j ∙ rw ((text_eq_iff id j).1 same) refl, live, refl),
  )

  promoted_elsewhere :
      (q : Pair) → same_project (home d) q ≡ false → (j : Text) → Current n q j ↔ Current m q j
  promoted_elsewhere q ne j = (
    λ (e, at, active, house). elim (Bool-cases (text_eq id j)) [
      | inl eq ↦
          let is = promoted id d m n p j e at eq in
          absurd (cc (sym ne ∙ (same_project_iff (home d) q).1 (ap home is ∙ house)))
      | inr other ↦
          let (x, old, is) = origin id d m n p j e at other in
          (
            x,
            old,
            (demoted-active d.owner_id d.project x (ap (λ z. z.active) is ∙ active)).0,
            sym (demoted-home d.owner_id d.project x) ∙ ap home is ∙ house,
          )
    ],
    λ (x, old, active, house). elim (Bool-cases (text_eq id j)) [
      | inl eq ↦
          let same = fits x (ap (λ i. Dict.get i m) ((text_eq_iff id j).0 eq) ∙ old) in
          absurd (cc (sym ne ∙ (same_project_iff (home d) q).1 (sym same ∙ house)))
      | inr other ↦ (x, p j ∙ rw (other, old) (ap (λ y. some y) (kept x house)), active, house)
    ],
  )
    where
      kept : (x : Deployment) → home x ≡ q → demoted d.owner_id d.project x ≡ x
      kept x house = elim (Bool-cases (belongs d.owner_id d.project x)) [
        | inr no_home ↦ rw no_home refl
        | inl b ↦ absurd (
            cc (
              sym ne
              ∙ (same_project_iff (home d) q).1
                  (sym ((belongs_iff d.owner_id d.project x).0 b) ∙ house)))
      ]

  -- The pointers of a state in which the project points at the promoted version.
  pub promoted_pointers :
      (r : Releases)
      → ((q : Pair) (j : Text) → (r.current q ≡ some j) ↔ Current m q j)
      → (q : Pair) (j : Text)
      → ((if same_project (home d) q then some id else r.current q) ≡ some j) ↔ Current n q j
  promoted_pointers r pointers q j = elim (Bool-cases (same_project (home d) q)) [
    | inl eq ↦
        let same = (same_project_iff (home d) q).0 eq in
        let moved : Current n q j ↔ (id ≡ j) =
          subst (λ z. Current n z j ↔ (id ≡ j)) same (promoted_here j) in
        (
          λ h. moved.1 (let at : some id ≡ some j = sym (rw eq refl) ∙ h in cc at),
          λ c. rw eq (ap (λ i. some i) (moved.0 c)),
        )
    | inr ne ↦
        let moved = promoted_elsewhere q ne j in
        (
          λ h. moved.1 ((pointers q j).0 (ground (arith, h, ne))),
          λ c. rw ne ((pointers q j).1 (moved.0 c)),
        )
  ]

  pub promoted_versions :
      (r : Releases)
      → ((j : Text) → r.project_of j ≡ Option.map home (Dict.get j m))
      → (j : Text)
      → (if text_eq id j then some (home d) else r.project_of j) ≡ Option.map home (Dict.get j n)
  promoted_versions r versions j = elim (Bool-cases (text_eq id j)) [
    | inl eq ↦ rw (p j, eq) refl
    | inr ne ↦
        rw (p j, ne)
          (versions j ∙ elim (Option-cases (Dict.get j m)) [
            | inl none_there ↦ rw none_there refl
            | inr (x, at) ↦ rw at (ap (λ h. some h) (sym (demoted-home d.owner_id d.project x)))
          ])
  ]

-- Recording a version under a new id.
pub after_insert-Implements :
    (id : Text) (d : Deployment) (db : Database) (r : Releases)
    → Dict.get id db.deployments ≡ none
    → d.active ≡ true
    → Implements db r
    → Implements (after_insert id d db) (release (home d) id r)
after_insert-Implements id d db r new live i =
    let p = λ (j : Text). get-after_insert id j d db in
    let fits : (x : Deployment) → Dict.get id db.deployments ≡ some x → home x ≡ home d =
      λ x at. absurd (cc (sym new ∙ at)) in
    record {
      versions =
          promoted_versions id d db.deployments (after_insert id d db).deployments p live fits r
            i.versions;
      pointers =
          promoted_pointers id d db.deployments (after_insert id d db).deployments p live fits r
            i.pointers;
    }
