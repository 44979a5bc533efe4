-- ===== src/Control/Store/Serving.antt =====
-- apps/control/src/store.ts: which routes the snapshot has.
use sproutboat.Base.{
  ◌≡◌, ◌↔◌, ◌⊎◌, sym, ap, refl, ◌∙◌, Bool, true, false, ◌&&◌, not, some, List, [], ◌∷◌, arith,
  if_ind, inl, inr, Bool-cases, pair_eq,
}
use sproutboat.Base.Codes.{Text, text_eq_inst}
use sproutboat.Base.Bag
use sproutboat.Base.Bag.{collect, has-collect, has-sort}
use sproutboat.Base.Order.{text_leb}
use sproutboat.Base.Dict
use sproutboat.Base.Dict.{Dict}
use sproutboat.Control.Store.{Pair, Deployment, CustomDomain, Database, belongs, home}
use sproutboat.Control.Store.Domains.{is_verified}
use sproutboat.Control.Store.Routes.{
  RouteRow, row_of, is_banned, points_at, serves, domain_rows, route_rows,
}
use sproutboat.Control.Store.Switching.{belongs_iff}
use sproutboat.Control.Store.Kept.{IsSound}

-- An active version, whose owner is not banned, is served on a host.
pub record IsServed (db : Database) (hostname : Text) (id : Text) (d : Deployment) : Type 0 where
  pub at : Dict.get id db.deployments ≡ some d
  pub live : d.active ≡ true
  pub allowed : is_banned d.owner_id db ≡ false
  pub name :
      (hostname ≡ d.hostname)
      ⊎ ((domain : CustomDomain) × (Dict.get (hostname, d.owner_id) db.custom_domains ≡ some domain)
          × (domain.project ≡ d.project)
          × (is_verified domain ≡ true))

-- Some row of the table passes a test and makes the wanted row.
abbrev pub Makes :
    (Deployment → Bool) → (Deployment → RouteRow) → RouteRow → Dict Text Deployment → Type 0
Makes test row r table =
    (id : Text) × (d : Deployment) × (Dict.get id table ≡ some d) × (test d ≡ true) × (row d ≡ r)

both : (a b : Bool) → (a && b) ≡ true → (a ≡ true) × (b ≡ true)
both a b h = ground (arith, h)

collect_iff :
    (test : Deployment → Bool) (row : Deployment → RouteRow) (r : RouteRow)
    (table : Dict Text Deployment) (rest : List RouteRow)
    → Dict.Unique table
    → (Bag.has r (collect (λ _ d. test d) (λ _ d. row d) table rest) ≡ true)
      ↔ (Makes test row r table ⊎ (Bag.has r rest ≡ true))
collect_iff test row r table rest u =
    let p = λ (_ : Text) (d : Deployment). test d && pair_eq.beq (row d) r in
    let step = has-collect (λ _ d. test d) (λ _ d. row d) r table rest in
    (
      λ h. elim (Bool-cases (Dict.exists p table)) [
        | inl t ↦
            let (id, d, at, ok) = Dict.exists-true p table u t in
            let (passes, same) = both (test d) (pair_eq.beq (row d) r) ok in
            inl (id, d, at, passes, (pair_eq.beq_iff (row d) r).0 same)
        | inr ne ↦ inr (sym (step ∙ rw ne refl) ∙ h)
      ],
      λ h. elim h [
        | inl (id, d, at, passes, same) ↦
            let ok : p id d ≡ true = rw (passes, (pair_eq.beq_iff (row d) r).1 same) refl in
            step ∙ rw (Dict.exists-get id d p table at ok) refl
        | inr there ↦
            step
            ∙ if_ind (λ z. z ≡ true) (Dict.exists p table) true (Bag.has r rest) (λ _. refl)
                (λ _. there)
      ],
    )

-- A domain of the table that is served makes the row.
abbrev pub Points : Database → RouteRow → Dict Pair CustomDomain → Type 0
Points db r domains =
    (key : Pair) × (domain : CustomDomain) × (Dict.get key domains ≡ some domain)
    × (serves db key domain ≡ true)
    × Makes (points_at key domain) (row_of key.0) r db.deployments

module _ (db : Database) (r : RouteRow) (rest : List RouteRow)
    (ids : Dict.Unique db.deployments) where
  abbrev here_rows : Pair → CustomDomain → List RouteRow → List RouteRow
  here_rows key domain rows =
      collect (λ _ d. points_at key domain d) (λ _ d. row_of key.0 d) db.deployments rows

  from_rows :
      (domains : Dict Pair CustomDomain)
      → Dict.Unique domains
      → Bag.has r (domain_rows db domains rest) ≡ true
      → Points db r domains ⊎ (Bag.has r rest ≡ true)
  unfolding domain_rows Dict.get
  from_rows [] u h = inr h
  from_rows ((key, domain) ∷ domains) (new, u) h =
      let later : Bag.has r (domain_rows db domains rest) ≡ true
          → Points db r ((key, domain) ∷ domains) ⊎ (Bag.has r rest ≡ true) =
        λ t. elim (from_rows domains u t) [
          | inl (k, d, at, s, m) ↦ inl (k, d, Dict.get_tail key k domain d domains new at, s, m)
          | inr there ↦ inr there
        ] in
      elim (Bool-cases (serves db key domain)) [
        | inr ne ↦ later (ground (arith, h, ne))
        | inl s ↦
            let here : Bag.has r (here_rows key domain (domain_rows db domains rest)) ≡ true =
              ground (arith, h, s) in
            elim ((collect_iff (points_at key domain) (row_of key.0) r db.deployments
                (domain_rows db domains rest) ids).0
              here) [
                | inl m ↦ inl (key, domain, Dict.get_head key domain domains, s, m)
                | inr t ↦ later t
              ]
      ]

  to_rows :
      (domains : Dict Pair CustomDomain)
      → Points db r domains ⊎ (Bag.has r rest ≡ true)
      → Bag.has r (domain_rows db domains rest) ≡ true
  unfolding domain_rows Dict.get
  to_rows [] (inl (k, d, at, s, m)) = absurd (cc at)
  to_rows [] (inr there) = there
  to_rows ((key, domain) ∷ domains) w =
      let rows = domain_rows db domains rest in
      let collected = collect_iff (points_at key domain) (row_of key.0) r db.deployments rows ids in
      let later = λ (t : Bag.has r rows ≡ true).
        if_ind (λ z. Bag.has r z ≡ true) (serves db key domain) (here_rows key domain rows) rows
          (λ _. collected.1 (inr t)) (λ _. t) in
      elim w [
        | inr there ↦ later (to_rows domains (inr there))
        | inl (k, d, at, s, m) ↦ elim (Dict.get_cases key k domain d domains at) [
          | inr old ↦ later (to_rows domains (inl (k, d, old, s, m)))
          | inl (same, is) ↦
              let served : serves db key domain ≡ true =
                ap (λ i. serves db i domain) same ∙ ap (λ x. serves db k x) is ∙ s in
              let made : Makes (points_at key domain) (row_of key.0) r db.deployments =
                rw (same, is) m in
              rw served (collected.1 (inl made))
        ]
      ]

has_nothing : (r : RouteRow) → Bag.has r [] ≡ true → ⊥
unfolding Bag.has
has_nothing r h = cc h

abbrev own_test : Database → Deployment → Bool
own_test db d = d.active && not (is_banned d.owner_id db)

route-IsServed :
    (db : Database) (r : RouteRow)
    → Points db r db.custom_domains
    → (id : Text) × (d : Deployment) × IsServed db r.0.0 id d × (row_of r.0.0 d ≡ r)
unfolding serves points_at
route-IsServed db r (key, domain, at, s, (id, d, here, test, same)) =
    let (named, live) = both (belongs key.1 domain.project d) (d.active) test in
    let (verified, allowed) = both (is_verified domain) (not (is_banned key.1 db)) s in
    let house : home d ≡ (key.1, domain.project) = (belongs_iff key.1 domain.project d).0 named in
    let host : key.0 ≡ r.0.0 = ap (λ x. x.0.0) same in
    (
      id,
      d,
      record {
        at = here;
        live = live;
        allowed =
            ap (λ (h : Pair). is_banned h.0 db) house
            ∙ (let banned : is_banned key.1 db ≡ false = ground (arith, allowed) in banned);
        name = inr (
          domain,
          ap (λ (k : Pair). Dict.get k db.custom_domains)
                (ap (λ h. (h, d.owner_id)) (sym host) ∙ ap (λ h. (key.0, h.0)) house)
              ∙ at,
          sym (ap (λ h. h.1) house),
          verified,
        );
      },
      ap (λ h. row_of h d) (sym host) ∙ same,
    )

domain_serves :
    (db : Database) (r : RouteRow) (id : Text) (d : Deployment) (domain : CustomDomain)
    → Dict.get id db.deployments ≡ some d
    → d.active ≡ true
    → is_banned d.owner_id db ≡ false
    → Dict.get (r.0.0, d.owner_id) db.custom_domains ≡ some domain
    → domain.project ≡ d.project
    → is_verified domain ≡ true
    → row_of r.0.0 d ≡ r
    → Points db r db.custom_domains
unfolding serves points_at
domain_serves db r id d domain here live allowed at project verified same = (
  (r.0.0, d.owner_id),
  domain,
  at,
  rw (verified, allowed) refl,
  (
    id,
    d,
    here,
    rw ((belongs_iff d.owner_id domain.project d).1 (ap (λ p. (d.owner_id, p)) (sym project)), live)
        refl,
    same,
  ),
)

-- In sound tables the snapshot routes a row exactly if it is made of an active version, of an
-- owner who is not banned, on the version's own host or on a custom domain that this owner has
-- verified for the version's project.
pub route_rows_iff :
    (db : Database) (r : RouteRow)
    → IsSound db
    → (Bag.has r (route_rows db) ≡ true)
      ↔ ((id : Text) × (d : Deployment) × IsServed db r.0.0 id d × (row_of r.0.0 d ≡ r))
unfolding route_rows
route_rows_iff db r s =
    let ids = s.valid.ids in
    let sorted =
      has-sort (λ (x y : RouteRow). text_leb x.0.0 y.0.0) r
        (domain_rows db db.custom_domains
          (collect (λ _ d. own_test db d) (λ _ d. row_of d.hostname d) db.deployments [])) in
    let own = collect_iff (own_test db) (λ d. row_of d.hostname d) r db.deployments [] ids in
    let rest = collect (λ _ d. own_test db d) (λ _ d. row_of d.hostname d) db.deployments [] in
    (
      λ h. elim (from_rows db r rest ids db.custom_domains s.owned.keys (sym sorted ∙ h)) [
        | inl points ↦ route-IsServed db r points
        | inr there ↦ elim (own.0 there) [
          | inr nothing ↦ absurd (has_nothing r nothing)
          | inl (id, d, at, test, same) ↦
              let (live, allowed) = both (d.active) (not (is_banned d.owner_id db)) test in
              let host : d.hostname ≡ r.0.0 = ap (λ x. x.0.0) same in
              (
                id,
                d,
                record {
                  at = at;
                  live = live;
                  allowed = ground (arith, allowed);
                  name = inl (sym host);
                },
                ap (λ h. row_of h d) (sym host) ∙ same,
              )
        ]
      ],
      λ (id, d, served, same).
          sorted
          ∙ to_rows db r rest ids db.custom_domains (elim served.name [
            | inr (domain, at, project, verified) ↦ inl (
                domain_serves db r id d domain served.at served.live served.allowed at project
                  verified same)
            | inl host ↦ inr (
                own.1 (
                  inl (
                    id,
                    d,
                    served.at,
                    rw (served.live, served.allowed) refl,
                    ap (λ h. row_of h d) (sym host) ∙ same,
                  )))
          ]),
    )
