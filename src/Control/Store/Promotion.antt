-- ===== src/Control/Store/Promotion.antt =====
-- apps/control/src/store.ts: the tables after a version became the active one of its project.
use sproutboat.Base.{
  ◌≡◌, sym, ap, refl, ◌∙◌, true, false, Option, none, some, List, [], ◌∷◌, if◌then◌else◌, inl, inr,
  Bool-cases, Option-cases, pair_eq,
}
use mathlib.Core.Option
use mathlib.Core.Path.{subst}
use sproutboat.Base.Codes.{Text, text_eq, text_eq_iff, text_eq_inst}
use sproutboat.Base.Dict
use sproutboat.Base.Dict.{
  Dict, get-insert, get-insert_self, get-has-true, passing-some, map-some, has-some, insert-Unique,
  update-Unique,
}
use sproutboat.Control.Store.{Pair, Deployment, Database, belongs, ref_of, home, set_inactive}
use sproutboat.Control.Store.Deployments.{
  link_resources, record_deployment, activate_deployment, project_deployment,
}
use sproutboat.Control.Store.Switching.{
  belongs_iff, demoted, recorded, after_insert, after_activation, get-after_insert,
  get-after_activation_if, activate_deployment-none, record_deployment-some, record_deployment-none,
  activate_deployment-some, insert_new-has, insert_new-keeps, insert_new-Unique,
}
use sproutboat.Control.Store.Valid.{OneActive, HasParents, IsValid}

pub demoted-home : (owner project : Text) (x : Deployment) → home (demoted owner project x) ≡ home x
demoted-home owner project x = elim (Bool-cases (belongs owner project x)) [
  | inl b ↦ rw b refl
  | inr ne ↦ rw ne refl
]

pub demoted-ref_of :
    (owner project : Text) (x : Deployment) → ref_of (demoted owner project x) ≡ ref_of x
demoted-ref_of owner project x = elim (Bool-cases (belongs owner project x)) [
  | inl b ↦ rw b refl
  | inr ne ↦ rw ne refl
]

-- A row that stays active is of another project, and was active before.
pub demoted-active :
    (owner project : Text) (x : Deployment)
    → (demoted owner project x).active ≡ true
    → (x.active ≡ true) × (belongs owner project x ≡ false)
demoted-active owner project x h = elim (Bool-cases (belongs owner project x)) [
  | inl b ↦
      absurd (cc (sym (ap (λ t. (if t then record x { active = false } else x).active) b) ∙ h))
  | inr ne ↦ (sym (ap (λ t. (if t then record x { active = false } else x).active) ne) ∙ h, ne)
]

-- The row of an id is the only active one of its project; the others were there.
abbrev pub Promotes : Text → Deployment → Dict Text Deployment → Dict Text Deployment → Type 0
Promotes id d m n =
    (j : Text)
    → Dict.get j n
      ≡ (if text_eq id j then some d else Option.map (demoted d.owner_id d.project) (Dict.get j m))

-- What a row after a promotion was.
pub origin :
    (id : Text) (d : Deployment) (m n : Dict Text Deployment)
    → Promotes id d m n
    → (j : Text) (e : Deployment) → Dict.get j n ≡ some e
    → text_eq id j ≡ false
    → (x : Deployment) × (Dict.get j m ≡ some x) × (demoted d.owner_id d.project x ≡ e)
origin id d m n p j e h ne =
    map-some (demoted d.owner_id d.project) (Dict.get j m) e (sym (p j ∙ rw ne refl) ∙ h)

pub promoted :
    (id : Text) (d : Deployment) (m n : Dict Text Deployment)
    → Promotes id d m n
    → (j : Text) (e : Deployment) → Dict.get j n ≡ some e
    → text_eq id j ≡ true
    → d ≡ e
promoted id d m n p j e h same = let at : some d ≡ some e = sym (p j ∙ rw same refl) ∙ h in cc at

-- No other row of the promoted version's project is active.
pub alone :
    (id : Text) (d : Deployment) (m n : Dict Text Deployment)
    → Promotes id d m n
    → (j : Text) (e : Deployment) → Dict.get j n ≡ some e
    → e.active ≡ true
    → home d ≡ home e
    → id ≡ j
alone id d m n p j e h live same = elim (Bool-cases (text_eq id j)) [
  | inl eq ↦ (text_eq_iff id j).0 eq
  | inr ne ↦
      let (x, at, is) = origin id d m n p j e h ne in
      let (_, off) = demoted-active d.owner_id d.project x (ap (λ y. y.active) is ∙ live) in
      let here =
        (belongs_iff d.owner_id d.project x).1
          (sym (demoted-home d.owner_id d.project x) ∙ ap home is ∙ sym same) in
      absurd (cc (here, off))
]

pub Promotes-OneActive :
    (id : Text) (d : Deployment) (m n : Dict Text Deployment)
    → Promotes id d m n
    → OneActive m
    → OneActive n
Promotes-OneActive id d m n p one i j x y hi hj live_x live_y same =
    elim (Bool-cases (text_eq id i)) [
      | inl eq ↦
          sym ((text_eq_iff id i).0 eq)
          ∙ alone id d m n p j y hj live_y (ap home (promoted id d m n p i x hi eq) ∙ same)
      | inr ne ↦ elim (Bool-cases (text_eq id j)) [
        | inl eq ↦
            sym
              (alone id d m n p i x hi live_x (ap home (promoted id d m n p j y hj eq) ∙ sym same))
            ∙ (text_eq_iff id j).0 eq
        | inr ne2 ↦
            let (a, at_a, is_a) = origin id d m n p i x hi ne in
            let (b, at_b, is_b) = origin id d m n p j y hj ne2 in
            let f = demoted-home d.owner_id d.project in
            one i j a b at_a at_b
              (demoted-active d.owner_id d.project a (ap (λ z. z.active) is_a ∙ live_x)).0
              (demoted-active d.owner_id d.project b (ap (λ z. z.active) is_b ∙ live_y)).0
              (sym (f a) ∙ ap home is_a ∙ same ∙ sym (ap home is_b) ∙ f b)
      ]
    ]

-- With the parents of the promoted version there, and none gone.
pub Promotes-HasParents :
    (id : Text) (d : Deployment) (db after : Database)
    → Promotes id d db.deployments after.deployments
    → (Dict.has (ref_of d) after.artifacts ≡ true) × (Dict.has (home d) after.projects ≡ true)
    → ((ref : Pair) → Dict.has ref db.artifacts ≡ true → Dict.has ref after.artifacts ≡ true)
    → ((key : Pair) → Dict.has key db.projects ≡ true → Dict.has key after.projects ≡ true)
    → HasParents db
    → HasParents after
Promotes-HasParents id d db after p (stored, housed) refs keys parents j e h =
    elim (Bool-cases (text_eq id j)) [
      | inl eq ↦
          let is = promoted id d db.deployments after.deployments p j e h eq in
          (
            ap (λ (z : Deployment). Dict.has (ref_of z) after.artifacts) (sym is) ∙ stored,
            ap (λ (z : Deployment). Dict.has (home z) after.projects) (sym is) ∙ housed,
          )
      | inr ne ↦
          let (x, at, is) = origin id d db.deployments after.deployments p j e h ne in
          let (s, k) = parents j x at in
          (
            ap (λ r. Dict.has r after.artifacts)
                  (sym (sym (demoted-ref_of d.owner_id d.project x) ∙ ap ref_of is))
                ∙ refs (ref_of x) s,
            ap (λ r. Dict.has r after.projects)
                  (sym (sym (demoted-home d.owner_id d.project x) ∙ ap home is))
                ∙ keys (home x) k,
          )
    ]

promoted-IsValid :
    (id : Text) (d : Deployment) (db after : Database)
    → IsValid db
    → Promotes id d db.deployments after.deployments
    → Dict.Unique after.deployments
    → Dict.Unique after.projects
    → (Dict.has (ref_of d) after.artifacts ≡ true) × (Dict.has (home d) after.projects ≡ true)
    → ((ref : Pair) → Dict.has ref db.artifacts ≡ true → Dict.has ref after.artifacts ≡ true)
    → ((key : Pair) → Dict.has key db.projects ≡ true → Dict.has key after.projects ≡ true)
    → IsValid after
promoted-IsValid id d db after v p ids keys own refs homes = record {
  ids = ids;
  project_keys = keys;
  one_active = Promotes-OneActive id d db.deployments after.deployments p v.one_active;
  parents = Promotes-HasParents id d db after p own refs homes v.parents;
}

after_insert-IsValid :
    (id : Text) (d : Deployment) (db : Database) → IsValid db → IsValid (after_insert id d db)
unfolding set_inactive
after_insert-IsValid id d db v =
    promoted-IsValid id d db (after_insert id d db) v (λ j. get-after_insert id j d db)
      (insert-Unique id d _ (update-Unique _ db.deployments v.ids))
      (insert_new-Unique (home d) _ db.projects v.project_keys)
      (insert_new-has (ref_of d) d.deployed_at db.artifacts, insert_new-has (home d) _ db.projects)
      (λ ref. insert_new-keeps (ref_of d) ref d.deployed_at db.artifacts)
      (λ key. insert_new-keeps (home d) key _ db.projects)

-- The links do not count.
linked-IsValid :
    (id : Text) (rs : List Text) (db : Database) → IsValid db → IsValid (link_resources id rs db)
unfolding link_resources
linked-IsValid id [] db v = v
linked-IsValid id (r ∷ rs) db v = linked-IsValid id rs _ (record {
  ids = v.ids;
  project_keys = v.project_keys;
  one_active = v.one_active;
  parents = v.parents;
})

pub record_deployment-IsValid :
    (id : Text) (input : Deployment) (rs : List Text) (db after : Database) (d : Deployment)
    → record_deployment id input rs db ≡ some (after, d)
    → IsValid db
    → IsValid after
record_deployment-IsValid id input rs db after d e v =
    elim (Bool-cases (Dict.has id db.deployments)) [
      | inl there ↦ absurd (cc (sym (record_deployment-none id input rs db there) ∙ e))
      | inr new ↦
          let same : some
                (link_resources id rs (after_insert id (recorded input) db), recorded input)
              ≡ some (after, d) =
            sym (record_deployment-some id input rs db new) ∙ e in
          let is : link_resources id rs (after_insert id (recorded input) db) ≡ after = cc same in
          subst (λ z. IsValid z) is (linked-IsValid id rs _ (after_insert-IsValid id _ db v))
    ]

after_activation-IsValid :
    (owner project id : Text) (t : Deployment) (db : Database)
    → Dict.get id db.deployments ≡ some t
    → belongs owner project t ≡ true
    → IsValid db
    → IsValid (after_activation owner project id t db)
unfolding set_inactive
after_activation-IsValid owner project id t db at b v =
    promoted-IsValid id (recorded t) db (after_activation owner project id t db) v
      (subst
        (λ (h : Pair).
          (j : Text)
          → Dict.get j (after_activation owner project id t db).deployments ≡ (
              if text_eq id j
              then some (recorded t)
              else Option.map (demoted h.0 h.1) (Dict.get j db.deployments)))
        (sym ((belongs_iff owner project t).0 b))
        (λ j. get-after_activation_if owner project id j t db))
      (insert-Unique id (recorded t) _ (update-Unique _ db.deployments v.ids)) v.project_keys
      (v.parents id t at) (λ ref h. h) (λ key h. h)

pub activate_deployment-IsValid :
    (owner project id : Text) (db after : Database) (d : Option Deployment)
    → activate_deployment owner project id db ≡ some (after, d)
    → IsValid db
    → IsValid after
unfolding project_deployment
activate_deployment-IsValid owner project id db after d e v =
    elim (Option-cases (project_deployment owner project id db)) [
      | inl gone ↦
          let same : some (db, none) ≡ some (after, d) =
            sym (activate_deployment-none owner project id db gone) ∙ e in
          let is : db ≡ after = cc same in subst (λ z. IsValid z) is v
      | inr (t, found) ↦
          let (at, b) = passing-some (belongs owner project) _ t found in
          let same : some (after_activation owner project id t db, some (recorded t))
              ≡ some (after, d) =
            sym (activate_deployment-some owner project id t db at b) ∙ e in
          let is : after_activation owner project id t db ≡ after = cc same in
          subst (λ z. IsValid z) is (after_activation-IsValid owner project id t db at b v)
    ]
