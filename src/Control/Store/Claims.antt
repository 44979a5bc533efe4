-- ===== src/Control/Store/Claims.antt =====
-- apps/control/src/store.ts: `claimCustomDomain` and `markCustomDomainVerified`, on every branch.
use sproutboat.Base.{
  ℕ, ◌≡◌, ◌⊎◌, refl, ◌∙◌, true, false, ◌&&◌, not, Option, none, some, arith, if_ind, inl, inr,
  Bool-cases, Option-cases, pair_eq,
}
use mathlib.Core.Path.{subst}
use sproutboat.Base.Codes.{Text, text_eq, text_eq_self, text_eq_inst}
use sproutboat.Base.Dict
use sproutboat.Base.Dict.{
  Dict, get-insert, get-insert_self, get-filter, passing-some, filter-some, insert-cases,
  delete-some, has-some, insert-Unique, filter-Unique, delete-Unique,
}
use sproutboat.Control.Store.{Pair, CustomDomain, Database}
use sproutboat.Control.Store.Domains.{
  is_verified, claim_is_stale, drop_stale_claims, has_verified, open_claim, ClaimResult,
  verified_elsewhere, claim_custom_domain, mark_custom_domain_verified, delete_custom_domain,
}
use sproutboat.Control.Store.Ownership.{IsOwned, Fewer-IsOwned, filter-IsOwned, insert-IsOwned}

swept-IsOwned :
    (hostname : Text) (clock : ℕ) (db : Database)
    → IsOwned db
    → IsOwned (drop_stale_claims hostname clock db)
unfolding drop_stale_claims
swept-IsOwned hostname clock db o = filter-IsOwned _ db o

abbrev pub new_claim : Text → Text → ℕ → CustomDomain
new_claim project token clock = record {
  project = project;
  token = token;
  verified_at = none;
  created_at = clock;
}

same_database :
    (a b : Database) (r s : ClaimResult)
    → ◌≡◌ {A = Option (Database × ClaimResult)} (some (a, r)) (some (b, s))
    → IsOwned a
    → IsOwned b
same_database a b r s h o = let is : a ≡ b = cc h in subst (λ z. IsOwned z) is o

pub claim_custom_domain-IsOwned :
    (hostname owner project token : Text) (clock : ℕ) (db after : Database) (result : ClaimResult)
    → claim_custom_domain hostname owner project token clock db ≡ some (after, result)
    → IsOwned db
    → IsOwned after
unfolding claim_custom_domain
claim_custom_domain-IsOwned hostname owner project token clock db after result e o =
    let swept = drop_stale_claims hostname clock db in
    let owned = swept-IsOwned hostname clock db o in
    let P = λ (z : Option (Database × ClaimResult)). z ≡ some (after, result) → IsOwned after in
    if_ind P (has_verified hostname swept.custom_domains) _ _
      (λ _ h. same_database swept after _ result h owned)
      (λ _.
        if_ind P (Dict.has (hostname, owner) swept.custom_domains) _ _
          (λ _ h. same_database swept after _ result h owned)
          (λ _.
            if_ind P (not (Dict.has (owner, project) swept.projects)) _ _ (λ _ h. absurd (cc h))
              (λ housed h. same_database _ after _ result h (
                insert-IsOwned hostname owner (new_claim project token clock) swept (inl refl)
                  (ground (arith, housed)) owned))))
      e

abbrev pub marked : ℕ → CustomDomain → CustomDomain
marked clock domain = record domain { verified_at = some clock }

abbrev pub after_marking : Text → Text → ℕ → CustomDomain → Database → Database
after_marking hostname owner clock domain db = record db {
  custom_domains =
      Dict.filter (λ key _. not (text_eq key.0 hostname && not (text_eq key.1 owner)))
        (Dict.insert (hostname, owner) (marked clock domain) db.custom_domains);
}

pub mark_custom_domain_verified-done :
    (owner project hostname : Text) (clock : ℕ) (db : Database)
    → (mark_custom_domain_verified owner project hostname clock db ≡ (db, false))
      ⊎ ((domain : CustomDomain) × (mark_custom_domain_verified owner project hostname clock db
            ≡ (after_marking hostname owner clock domain db, true))
          × (has_verified hostname db.custom_domains ≡ false)
          × (Dict.get (hostname, owner) db.custom_domains ≡ some domain)
          × (open_claim project domain ≡ true))
unfolding mark_custom_domain_verified
mark_custom_domain_verified-done owner project hostname clock db =
    elim (Bool-cases (has_verified hostname db.custom_domains)) [
      | inl v ↦ inl (rw v refl)
      | inr nv ↦
          elim (Option-cases
            (Dict.passing (open_claim project) (Dict.get (hostname, owner) db.custom_domains))) [
              | inl gone ↦ inl (rw nv (rw (gone, mark_custom_domain_verified) refl))
              | inr (domain, found) ↦
                  let (at, ok) = passing-some (open_claim project) _ domain found in
                  inr (domain, rw nv (rw (found, mark_custom_domain_verified) refl), nv, at, ok)
            ]
    ]

pub mark_custom_domain_verified-IsOwned :
    (owner project hostname : Text) (clock : ℕ) (db : Database)
    → IsOwned db
    → IsOwned (mark_custom_domain_verified owner project hostname clock db).0
mark_custom_domain_verified-IsOwned owner project hostname clock db o =
    elim (mark_custom_domain_verified-done owner project hostname clock db) [
      | inl same ↦ rw same o
      | inr (domain, is, free, at, _) ↦ rw is (
          filter-IsOwned _ _ (
            insert-IsOwned hostname owner (marked clock domain) db (inr free)
              (o.houses (hostname, owner) domain at) o))
    ]

pub delete_custom_domain-IsOwned :
    (owner project hostname : Text) (db : Database)
    → IsOwned db
    → IsOwned (delete_custom_domain owner project hostname db).0
unfolding delete_custom_domain
delete_custom_domain-IsOwned owner project hostname db o =
    elim (Option-cases (
      Dict.passing (λ d. text_eq d.project project)
        (Dict.get (hostname, owner) db.custom_domains))) [
          | inl gone ↦ rw (gone, delete_custom_domain) o
          | inr (d, found) ↦
              rw (found, delete_custom_domain)
                (Fewer-IsOwned db
                  (record db { custom_domains = Dict.delete (hostname, owner) db.custom_domains }) o
                  (delete-Unique (hostname, owner) db.custom_domains o.keys)
                  (λ key x h. (delete-some (hostname, owner) key x db.custom_domains h, λ t. t)))
        ]

-- A verified domain stays with its owner: in tables where no hostname has two verified owners,
-- nobody's claim of its hostname succeeds, and no claim is marked verified for it; either way its
-- row stays as it was.
pub claim_custom_domain-verified :
    (hostname holder owner project token : Text) (clock : ℕ) (domain : CustomDomain) (db : Database)
    → IsOwned db
    → Dict.get (hostname, holder) db.custom_domains ≡ some domain
    → is_verified domain ≡ true
    → (after : Database) × (claim_custom_domain hostname owner project token clock db
        ≡ some (after, verified_elsewhere))
      × (Dict.get (hostname, holder) after.custom_domains ≡ some domain)
      × (mark_custom_domain_verified owner project hostname clock db ≡ (db, false))
unfolding claim_custom_domain drop_stale_claims has_verified claim_is_stale
    mark_custom_domain_verified
claim_custom_domain-verified hostname holder owner project token clock domain db o at v =
    let p = λ (key : Pair) (x : CustomDomain). text_eq key.0 hostname && is_verified x in
    let stays : Dict.get (hostname, holder) (drop_stale_claims hostname clock db).custom_domains
        ≡ some domain =
      get-filter (hostname, holder) _ db.custom_domains o.keys ∙ rw at (rw v (ground arith)) in
    let held : p (hostname, holder) domain ≡ true = rw (text_eq_self hostname, v) refl in
    let before = Dict.exists-get (hostname, holder) domain p db.custom_domains at held in
    let still =
      Dict.exists-get (hostname, holder) domain p
        (drop_stale_claims hostname clock db).custom_domains stays held in
    (drop_stale_claims hostname clock db, rw still refl, stays, rw before refl)
