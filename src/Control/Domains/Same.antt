-- ===== src/Control/Domains/Same.antt =====
-- apps/control/src/store.ts: what the other transactions leave of the domains.
use sproutboat.Base.{
  ℕ, ◌≡◌, sym, ap, refl, ◌∙◌, ◌&&◌, not, Option, none, some, List, [], ◌∷◌, if_ind, inl, inr,
  Bool-cases, Option-cases, pair_eq,
}
use sproutboat.Base.Codes.{Text, text_eq, text_eq_inst}
use sproutboat.Base.Dict
use sproutboat.Base.Dict.{Dict, filter-some, delete-some, passing-some}
use sproutboat.Control.Store.{
  Pair, Deployment, CustomDomain, Database, belongs, set_inactive, drop_projects,
}
use sproutboat.Control.Store.Deployments.{
  project_deployment, record_deployment, activate_deployment, delete_project, ban_owner,
  link_resources,
}
use sproutboat.Control.Store.Domains.{delete_custom_domain}
use sproutboat.Control.Store.Switching.{
  recorded, after_insert, after_activation, record_deployment-some, record_deployment-none,
  activate_deployment-some, activate_deployment-none,
}
use sproutboat.Control.Store.Ownership.{IsOwned}
use sproutboat.Control.Domains.{delete_domain}

-- Every row was there.
abbrev pub Fewer : Database → Database → Type 0
Fewer db after =
    (key : Pair) (x : CustomDomain)
    → Dict.get key after.custom_domains ≡ some x
    → Dict.get key db.custom_domains ≡ some x

linked-Fewer :
    (id : Text) (rs : List Text) (db : Database)
    → (link_resources id rs db).custom_domains ≡ db.custom_domains
unfolding link_resources
linked-Fewer id [] db = refl
linked-Fewer id (r ∷ rs) db = linked-Fewer id rs _

inserted-Fewer :
    (id : Text) (d : Deployment) (db : Database)
    → (after_insert id d db).custom_domains ≡ db.custom_domains
unfolding set_inactive
inserted-Fewer id d db = refl

activated-Fewer :
    (owner project id : Text) (t : Deployment) (db : Database)
    → (after_activation owner project id t db).custom_domains ≡ db.custom_domains
unfolding set_inactive
activated-Fewer owner project id t db = refl

result_tables :
    {R : Type 0} (a b : Database) (r s : R)
    → ◌≡◌ {A = Option (Database × R)} (some (a, r)) (some (b, s))
    → a.custom_domains ≡ b.custom_domains
result_tables a b r s same = let is : a ≡ b = cc same in ap (λ (z : Database). z.custom_domains) is

pub record_deployment-Fewer :
    (id : Text) (input : Deployment) (rs : List Text) (db after : Database) (d : Deployment)
    → record_deployment id input rs db ≡ some (after, d)
    → Fewer db after
record_deployment-Fewer id input rs db after d e key x h =
    elim (Bool-cases (Dict.has id db.deployments)) [
      | inl there ↦ absurd (cc (sym (record_deployment-none id input rs db there) ∙ e))
      | inr new ↦
          let fresh = recorded input in
          let same =
            result_tables (link_resources id rs (after_insert id fresh db)) after fresh d
              (sym (record_deployment-some id input rs db new) ∙ e) in
          ap (λ t. Dict.get key t)
            (sym (inserted-Fewer id fresh db)
              ∙ sym (linked-Fewer id rs (after_insert id fresh db))
              ∙ same)
          ∙ h
    ]

pub activate_deployment-Fewer :
    (owner project id : Text) (db after : Database) (d : Option Deployment)
    → activate_deployment owner project id db ≡ some (after, d)
    → Fewer db after
unfolding project_deployment
activate_deployment-Fewer owner project id db after d e key x h =
    elim (Option-cases (project_deployment owner project id db)) [
      | inl gone ↦
          let same =
            result_tables db after none d
              (sym (activate_deployment-none owner project id db gone) ∙ e) in
          ap (λ t. Dict.get key t) same ∙ h
      | inr (t, found) ↦
          let (at, b) = passing-some (belongs owner project) _ t found in
          let same =
            result_tables (after_activation owner project id t db) after (some (recorded t)) d
              (sym (activate_deployment-some owner project id t db at b) ∙ e) in
          ap (λ z. Dict.get key z) (sym (activated-Fewer owner project id t db) ∙ same) ∙ h
    ]

pub delete_project-Fewer :
    (owner project : Text) (db : Database)
    → IsOwned db
    → Fewer db (delete_project owner project db).0
unfolding delete_project drop_projects
delete_project-Fewer owner project db o key x h =
    (filter-some key (λ k d. not (text_eq k.1 owner && text_eq d.project project)) x
      db.custom_domains o.keys h).0

pub delete_domain-Fewer :
    (owner project hostname : Text) (db : Database)
    → Fewer db (delete_domain owner project hostname db).0
unfolding delete_domain delete_custom_domain
delete_domain-Fewer owner project hostname db key x =
    elim (Option-cases (
      Dict.passing (λ d. text_eq d.project project)
        (Dict.get (hostname, owner) db.custom_domains))) [
          | inl gone ↦ rw (gone, delete_custom_domain) (λ h. h)
          | inr (d, found) ↦
              rw (found, delete_custom_domain)
                (λ h. delete-some (hostname, owner) key x db.custom_domains h)
        ]

pub ban_owner-Fewer :
    (owner : Text) (clock : ℕ) (db : Database) → Fewer db (ban_owner owner clock db)
unfolding ban_owner
ban_owner-Fewer owner clock db key x =
    if_ind
      (λ (z : Database).
        Dict.get key z.custom_domains ≡ some x → Dict.get key db.custom_domains ≡ some x)
      (Dict.has owner db.banned_owners) db _ (λ _ h. h) (λ _ h. h)
