-- ===== src/Control/Store/Kept.antt =====
-- apps/control/src/store.ts: what each transaction keeps of the tables.
use sproutboat.Base.{
  ℕ, ltb, ◌≡◌, sym, ap, refl, ◌∙◌, Bool, ◌&&◌, not, Option, none, some, List, [], ◌∷◌, if_ind, inl,
  inr, Bool-cases, Option-cases, pair_eq,
}
use mathlib.Core.Path.{subst}
use sproutboat.Base.Codes.{Text, text_eq, text_eq_inst}
use sproutboat.Base.Dict
use sproutboat.Base.Dict.{Dict, filter-some, passing-some, has-filter, filter-Unique}
use sproutboat.Control.Store.{
  Pair, Deployment, Database, belongs, home, set_inactive, drop_deployments, drop_projects,
}
use sproutboat.Control.Store.Deployments.{
  record_deployment, activate_deployment, project_deployment, delete_rows,
  prune_project_deployments, delete_project, delete_owner, DeploymentDeletion, delete_deployment,
  ban_owner, unban_owner, link_resources, doomed_versions,
}
use sproutboat.Control.Store.Domains.{
  ClaimResult, has_verified, open_claim, drop_stale_claims, claim_custom_domain,
  mark_custom_domain_verified, delete_custom_domain,
}
use sproutboat.Control.Store.Switching.{
  recorded, after_insert, after_activation, insert_new-keeps, record_deployment-some,
  record_deployment-none, activate_deployment-some, activate_deployment-none,
}
use sproutboat.Control.Store.Valid.{IsValid, drop_projects-IsValid}
use sproutboat.Control.Store.Ownership.{IsOwned, Fewer-IsOwned}
use sproutboat.Control.Store.Claims.{
  claim_custom_domain-IsOwned, mark_custom_domain_verified-IsOwned, delete_custom_domain-IsOwned,
}

pub record IsSound (db : Database) : Type 0 where
  pub valid : IsValid db
  pub owned : IsOwned db

-- A change of neither domains nor projects.
pub untouched-IsOwned :
    (db after : Database)
    → after.custom_domains ≡ db.custom_domains
    → after.projects ≡ db.projects
    → IsOwned db
    → IsOwned after
untouched-IsOwned db after d p o =
    Fewer-IsOwned db after o (subst (λ t. Dict.Unique t) (sym d) o.keys) (λ key x h.
      (ap (λ t. Dict.get key t) (sym d) ∙ h, λ t. ap (λ q. Dict.has (key.1, x.project) q) p ∙ t))

-- The records of tables that the invariants do not read may change.
pub untouched-IsValid :
    (db after : Database)
    → after.deployments ≡ db.deployments
    → after.projects ≡ db.projects
    → after.artifacts ≡ db.artifacts
    → IsValid db
    → IsValid after
untouched-IsValid db after d p a v = record {
  ids = subst (λ t. Dict.Unique t) (sym d) v.ids;
  project_keys = subst (λ t. Dict.Unique t) (sym p) v.project_keys;
  one_active = λ i j x y hi hj.
      v.one_active i j x y (ap (λ t. Dict.get i t) (sym d) ∙ hi)
        (ap (λ t. Dict.get j t) (sym d) ∙ hj);
  parents = λ i x h.
      let (stored, housed) = v.parents i x (ap (λ t. Dict.get i t) (sym d) ∙ h) in
      (
        ap (λ t. Dict.has (x.owner_id, x.artifact) t) a ∙ stored,
        ap (λ t. Dict.has (home x) t) p ∙ housed,
      );
}

pub drop_projects-IsOwned :
    (doomed : Pair → Bool) (db : Database)
    → IsValid db
    → IsOwned db
    → IsOwned (drop_projects doomed db)
unfolding drop_projects
drop_projects-IsOwned doomed db v o =
    Fewer-IsOwned db (drop_projects doomed db) o (filter-Unique _ db.custom_domains o.keys)
      (λ key x h.
        let (at, kept) =
          filter-some key (λ k d. not (doomed (k.1, d.project))) x db.custom_domains o.keys h in
        (at, has-filter (key.1, x.project) _ db.projects v.project_keys (λ _. kept)))

-- What deleting versions leaves of the other tables.
drop_deployments-others :
    (doomed : Text → Deployment → Bool) (db : Database)
    → ((drop_deployments doomed db).custom_domains ≡ db.custom_domains)
      × ((drop_deployments doomed db).projects ≡ db.projects)
unfolding drop_deployments
drop_deployments-others doomed db = (refl, refl)

delete_rows-others :
    (rows : Dict Text Deployment) (db : Database)
    → ((delete_rows rows db).custom_domains ≡ db.custom_domains)
      × ((delete_rows rows db).projects ≡ db.projects)
unfolding delete_rows
delete_rows-others [] db = (refl, refl)
delete_rows-others ((id, _) ∷ rows) db =
    let here = drop_deployments-others (λ j _. text_eq j id) db in
    let rest = delete_rows-others rows _ in (rest.0 ∙ here.0, rest.1 ∙ here.1)

pub prune-IsOwned :
    (owner project : Text) (kept : ℕ) (db : Database)
    → IsOwned db
    → IsOwned (prune_project_deployments owner project kept db).0
unfolding prune_project_deployments
prune-IsOwned owner project kept db o =
    if_ind (λ (z : Database × List Pair). IsOwned z.0) (ltb kept 1) _ _ (λ _. o)
      (λ _.
        let rows = doomed_versions owner project kept db in
        let same = delete_rows-others rows db in
        untouched-IsOwned db (delete_rows rows db) same.0 same.1 o)

pub delete_deployment-IsOwned :
    (owner project id : Text) (db : Database)
    → IsOwned db
    → IsOwned (delete_deployment owner project id db).0
unfolding delete_deployment
delete_deployment-IsOwned owner project id db o =
    elim (Option-cases (project_deployment owner project id db)) [
      | inl gone ↦ rw (gone, delete_deployment) o
      | inr (row, found) ↦
          rw (found, delete_deployment)
            (if_ind (λ (z : Database × Option DeploymentDeletion). IsOwned z.0) (row.active) _ _
              (λ _. o)
              (λ _.
                let same = drop_deployments-others (λ j _. text_eq j id) db in
                untouched-IsOwned db _ same.0 same.1 o))
    ]

linked-IsOwned :
    (id : Text) (rs : List Text) (db : Database) → IsOwned db → IsOwned (link_resources id rs db)
unfolding link_resources
linked-IsOwned id [] db o = o
linked-IsOwned id (r ∷ rs) db o =
    linked-IsOwned id rs _
      (record { keys = o.keys; one_verified = o.one_verified; houses = o.houses })

after_insert-IsOwned :
    (id : Text) (d : Deployment) (db : Database) → IsOwned db → IsOwned (after_insert id d db)
unfolding set_inactive
after_insert-IsOwned id d db o =
    Fewer-IsOwned db (after_insert id d db) o o.keys
      (λ key x h. (h, insert_new-keeps (home d) (key.1, x.project) _ db.projects))

after_activation-IsOwned :
    (owner project id : Text) (t : Deployment) (db : Database)
    → IsOwned db
    → IsOwned (after_activation owner project id t db)
unfolding set_inactive
after_activation-IsOwned owner project id t db o =
    untouched-IsOwned db (after_activation owner project id t db) refl refl o

pub record_deployment-IsOwned :
    (id : Text) (input : Deployment) (rs : List Text) (db after : Database) (d : Deployment)
    → record_deployment id input rs db ≡ some (after, d)
    → IsOwned db
    → IsOwned after
record_deployment-IsOwned id input rs db after d e o =
    elim (Bool-cases (Dict.has id db.deployments)) [
      | inl there ↦ absurd (cc (sym (record_deployment-none id input rs db there) ∙ e))
      | inr new ↦
          let same : some
                (link_resources id rs (after_insert id (recorded input) db), recorded input)
              ≡ some (after, d) =
            sym (record_deployment-some id input rs db new) ∙ e in
          let is : link_resources id rs (after_insert id (recorded input) db) ≡ after = cc same in
          subst (λ z. IsOwned z) is
            (linked-IsOwned id rs _ (after_insert-IsOwned id (recorded input) db o))
    ]

pub activate_deployment-IsOwned :
    (owner project id : Text) (db after : Database) (d : Option Deployment)
    → activate_deployment owner project id db ≡ some (after, d)
    → IsOwned db
    → IsOwned after
unfolding project_deployment
activate_deployment-IsOwned owner project id db after d e o =
    elim (Option-cases (project_deployment owner project id db)) [
      | inl gone ↦
          let same : some (db, none) ≡ some (after, d) =
            sym (activate_deployment-none owner project id db gone) ∙ e in
          let is : db ≡ after = cc same in subst (λ z. IsOwned z) is o
      | inr (t, found) ↦
          let (at, b) = passing-some (belongs owner project) _ t found in
          let same : some (after_activation owner project id t db, some (recorded t))
              ≡ some (after, d) =
            sym (activate_deployment-some owner project id t db at b) ∙ e in
          let is : after_activation owner project id t db ≡ after = cc same in
          subst (λ z. IsOwned z) is (after_activation-IsOwned owner project id t db o)
    ]

pub delete_owner-IsSound :
    (owner : Text) (db : Database) → IsSound db → IsSound (delete_owner owner db).0
unfolding delete_owner
delete_owner-IsSound owner db s =
    let doomed = λ (key : Pair). text_eq key.0 owner in
    record {
      valid =
          untouched-IsValid (drop_projects doomed db) (delete_owner owner db).0 refl refl refl
            (drop_projects-IsValid doomed db s.valid);
      owned =
          untouched-IsOwned (drop_projects doomed db) (delete_owner owner db).0 refl refl
            (drop_projects-IsOwned doomed db s.valid s.owned);
    }

pub delete_project-IsSound :
    (owner project : Text) (db : Database)
    → IsSound db
    → IsSound (delete_project owner project db).0
unfolding delete_project
delete_project-IsSound owner project db s =
    let doomed = λ (key : Pair). text_eq key.0 owner && text_eq key.1 project in
    record {
      valid = drop_projects-IsValid doomed db s.valid;
      owned = drop_projects-IsOwned doomed db s.valid s.owned;
    }

pub ban_owner-IsSound :
    (owner : Text) (clock : ℕ) (db : Database) → IsSound db → IsSound (ban_owner owner clock db)
unfolding ban_owner
ban_owner-IsSound owner clock db s =
    if_ind (λ (z : Database). IsSound z) (Dict.has owner db.banned_owners) db _ (λ _. s)
      (λ _. record {
        valid = untouched-IsValid db _ refl refl refl s.valid;
        owned = untouched-IsOwned db _ refl refl s.owned;
      })

pub unban_owner-IsSound :
    (owner : Text) (db : Database) → IsSound db → IsSound (unban_owner owner db)
unfolding unban_owner
unban_owner-IsSound owner db s = record {
  valid = untouched-IsValid db _ refl refl refl s.valid;
  owned = untouched-IsOwned db _ refl refl s.owned;
}

-- What the operations on domains leave of the other tables.
abbrev Others : Database → Database → Type 0
Others db after =
    (after.deployments ≡ db.deployments)
    × (after.projects ≡ db.projects)
    × (after.artifacts ≡ db.artifacts)

Others-IsValid : (db after : Database) → Others db after → IsValid db → IsValid after
Others-IsValid db after o v = untouched-IsValid db after o.0 o.1 o.2 v

same-Others :
    (db a b : Database) (r s : ClaimResult)
    → ◌≡◌ {A = Option (Database × ClaimResult)} (some (a, r)) (some (b, s))
    → Others db a
    → Others db b
same-Others db a b r s h o = let is : a ≡ b = cc h in subst (λ z. Others db z) is o

pub claim_custom_domain-IsSound :
    (hostname owner project token : Text) (clock : ℕ) (db after : Database) (result : ClaimResult)
    → claim_custom_domain hostname owner project token clock db ≡ some (after, result)
    → IsSound db
    → IsSound after
unfolding claim_custom_domain drop_stale_claims
claim_custom_domain-IsSound hostname owner project token clock db after result e s =
    let swept = drop_stale_claims hostname clock db in
    let P = λ (z : Option (Database × ClaimResult)). z ≡ some (after, result) → Others db after in
    let same : Others db swept = (refl, refl, refl) in
    record {
      valid =
          Others-IsValid db after
            (if_ind P (has_verified hostname swept.custom_domains) _ _
              (λ _ h. same-Others db swept after _ result h same)
              (λ _.
                if_ind P (Dict.has (hostname, owner) swept.custom_domains) _ _
                  (λ _ h. same-Others db swept after _ result h same)
                  (λ _.
                    if_ind P (not (Dict.has (owner, project) swept.projects)) _ _
                      (λ _ h. absurd (cc h))
                      (λ _ h. same-Others db _ after _ result h (refl, refl, refl))))
              e)
            s.valid;
      owned =
          claim_custom_domain-IsOwned hostname owner project token clock db after result e s.owned;
    }

pub mark_custom_domain_verified-IsSound :
    (owner project hostname : Text) (clock : ℕ) (db : Database)
    → IsSound db
    → IsSound (mark_custom_domain_verified owner project hostname clock db).0
unfolding mark_custom_domain_verified
mark_custom_domain_verified-IsSound owner project hostname clock db s = record {
  valid =
      Others-IsValid db (mark_custom_domain_verified owner project hostname clock db).0
        (if_ind (λ (z : Database × Bool). Others db z.0) (has_verified hostname db.custom_domains) _
          _ (λ _. (refl, refl, refl))
          (λ _.
            elim (Option-cases
              (Dict.passing (open_claim project) (Dict.get (hostname, owner) db.custom_domains))) [
                | inl gone ↦ rw gone (refl, refl, refl)
                | inr (d, found) ↦ rw found (refl, refl, refl)
              ]))
        s.valid;
  owned = mark_custom_domain_verified-IsOwned owner project hostname clock db s.owned;
}

pub delete_custom_domain-IsSound :
    (owner project hostname : Text) (db : Database)
    → IsSound db
    → IsSound (delete_custom_domain owner project hostname db).0
unfolding delete_custom_domain
delete_custom_domain-IsSound owner project hostname db s = record {
  valid =
      Others-IsValid db (delete_custom_domain owner project hostname db).0
        (elim (Option-cases (
          Dict.passing (λ d. text_eq d.project project)
            (Dict.get (hostname, owner) db.custom_domains))) [
              | inl gone ↦ rw (gone, delete_custom_domain) (refl, refl, refl)
              | inr (d, found) ↦ rw (found, delete_custom_domain) (refl, refl, refl)
            ])
        s.valid;
  owned = delete_custom_domain-IsOwned owner project hostname db s.owned;
}
