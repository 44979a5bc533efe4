-- ===== src/Control/Store/Domains.antt =====
-- apps/control/src/store.ts: custom domains and their claims, and a project's secrets. The cipher
-- of the secrets is an argument.
use sproutboat.Base.{
  ℕ, ◌+◌, ltb, leb, Bool, true, false, ◌&&◌, not, Option, none, some, List, [], ◌∷◌, map, length,
  if◌then◌else◌, pair_eq,
}
use sproutboat.Base.Codes.{Text, text_eq, text_eq_inst}
use sproutboat.Base.Dict
use sproutboat.Base.Dict.{Dict}
use sproutboat.Base.Order.{keep, sort, text_leb}
use sproutboat.Control.Store.{Pair, CustomDomain, Secret, Database}

-- DOMAIN_CLAIM_TTL_MS
abbrev pub domain_claim_ttl_ms : ℕ
domain_claim_ttl_ms = 86400000

-- verified_at IS NOT NULL
unfoldable pub is_verified : CustomDomain → Bool
is_verified domain = elim (domain.verified_at) [ none ↦ false | some _ ↦ true ]

unfoldable pub claim_is_stale : ℕ → CustomDomain → Bool
unfolding is_verified
claim_is_stale clock domain =
    not (is_verified domain) && ltb (domain.created_at + domain_claim_ttl_ms) clock

unfoldable pub drop_stale_claims : Text → ℕ → Database → Database
unfolding claim_is_stale
drop_stale_claims hostname clock db = record db {
  custom_domains =
      Dict.filter (λ key domain. not (text_eq key.0 hostname && claim_is_stale clock domain))
        db.custom_domains;
}

unfoldable pub has_verified : Text → Dict Pair CustomDomain → Bool
unfolding is_verified
has_verified hostname table =
    Dict.exists (λ key domain. text_eq key.0 hostname && is_verified domain) table

abbrev pub fresher : Pair × CustomDomain → Pair × CustomDomain → Bool
fresher x y = leb y.1.created_at x.1.created_at

-- `find`, and the first row where none is found
unfoldable pub verified_or :
    Option (Pair × CustomDomain) → Dict Pair CustomDomain → Option (Pair × CustomDomain)
unfolding is_verified
verified_or fallback [] = fallback
verified_or fallback (row ∷ rows) =
    let rest = verified_or fallback rows in if is_verified (row.1) then some row else rest

unfoldable pub head_of : Dict Pair CustomDomain → Option (Pair × CustomDomain)
head_of [] = none
head_of (row ∷ rows) = some row

unfoldable pub custom_domain_by_hostname : Text → ℕ → Database → Option (Pair × CustomDomain)
unfolding verified_or head_of claim_is_stale
custom_domain_by_hostname hostname clock db =
    let rows = sort fresher (Dict.filter (λ key _. text_eq key.0 hostname) db.custom_domains) in
    let live = keep (λ row. not (claim_is_stale clock row.1)) rows in
    verified_or (head_of live) live

unfoldable pub project_custom_domains : Text → Text → Database → Dict Pair CustomDomain
project_custom_domains owner project db =
    sort (λ x y. text_leb x.0.0 y.0.0)
      (Dict.filter (λ key domain. text_eq key.1 owner && text_eq domain.project project)
        db.custom_domains)

pub data ClaimResult : Type 0 where
  claimed_domain : CustomDomain → ClaimResult
  verified_elsewhere : ClaimResult
  already_yours : ClaimResult

unfoldable pub claim_custom_domain :
    Text → Text → Text → Text → ℕ → Database → Option (Database × ClaimResult)
unfolding drop_stale_claims has_verified
claim_custom_domain hostname owner project token clock db =
    let swept = drop_stale_claims hostname clock db in
    let domain : CustomDomain = record {
      project = project;
      token = token;
      verified_at = none;
      created_at = clock;
    } in
    if has_verified hostname swept.custom_domains
    then some (swept, verified_elsewhere)
    else if Dict.has (hostname, owner) swept.custom_domains
    then some (swept, already_yours)
    else if not (Dict.has (owner, project) swept.projects)
    then none
    else some (
      record swept { custom_domains = Dict.insert (hostname, owner) domain swept.custom_domains },
      claimed_domain domain,
    )

unfoldable pub add_custom_domain :
    Text → Text → Text → Text → ℕ → Database → Option (Database × Option CustomDomain)
unfolding claim_custom_domain
add_custom_domain hostname owner project token clock db =
    elim (claim_custom_domain hostname owner project token clock db) [
      | none ↦ none
      | some (claimed, result) ↦ elim result [
        | claimed_domain domain ↦ some (claimed, some domain)
        | verified_elsewhere ↦ some (claimed, none)
        | already_yours ↦ some (claimed, none)
      ]
    ]

-- The row that the UPDATE of `markCustomDomainVerified` finds.
unfoldable pub open_claim : Text → CustomDomain → Bool
unfolding is_verified
open_claim project domain = text_eq domain.project project && not (is_verified domain)

unfoldable pub mark_custom_domain_verified : Text → Text → Text → ℕ → Database → Database × Bool
unfolding has_verified open_claim
mark_custom_domain_verified owner project hostname clock db =
    if has_verified hostname db.custom_domains
    then (db, false)
    else elim (Dict.passing (open_claim project) (Dict.get (hostname, owner) db.custom_domains)) [
      | none ↦ (db, false)
      | some domain ↦
          let marked = record domain { verified_at = some clock } in
          (
            record db {
              custom_domains =
                  Dict.filter (λ key _. not (text_eq key.0 hostname && not (text_eq key.1 owner)))
                    (Dict.insert (hostname, owner) marked db.custom_domains);
            },
            true,
          )
    ]

unfoldable pub delete_custom_domain : Text → Text → Text → Database → Database × Bool
delete_custom_domain owner project hostname db =
    elim (Dict.passing (λ d. text_eq d.project project)
      (Dict.get (hostname, owner) db.custom_domains)) [
        | none ↦ (db, false)
        | some _ ↦
            (record db { custom_domains = Dict.delete (hostname, owner) db.custom_domains }, true)
      ]

-- The encryption is `encryptSecret`.
unfoldable pub set_secret :
    (Text → Text) → Text → Text → Text → Text → ℕ → Database → Option Database
set_secret encrypt owner project name value clock db =
    if not (Dict.has (owner, project) db.projects)
    then none
    else some (record db {
      secrets =
          Dict.insert ((owner, project), name)
            (record { ciphertext = encrypt value; updated_at = clock }) db.secrets;
    })

unfoldable pub project_secrets : Text → Text → Database → Dict (Pair × Text) Secret
project_secrets owner project db =
    Dict.filter (λ key _. text_eq key.0.0 owner && text_eq key.0.1 project) db.secrets

unfoldable pub secret_names : Text → Text → Database → List Text
unfolding project_secrets
secret_names owner project db =
    map (λ row. row.0.1) (sort (λ x y. text_leb x.0.1 y.0.1) (project_secrets owner project db))

unfoldable pub secret_count : Text → Text → Database → ℕ
unfolding project_secrets
secret_count owner project db = length (project_secrets owner project db)

unfoldable pub delete_secret : Text → Text → Text → Database → Database × Bool
delete_secret owner project name db = (
  record db { secrets = Dict.delete ((owner, project), name) db.secrets },
  Dict.has ((owner, project), name) db.secrets,
)

-- The decryption is `decryptSecret`.
unfoldable pub project_secret_values : (Text → Text) → Text → Text → Database → Dict Text Text
unfolding project_secrets
project_secret_values decrypt owner project db =
    map (λ row. (row.0.1, decrypt row.1.ciphertext)) (project_secrets owner project db)
