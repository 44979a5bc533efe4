-- ===== src/Control/Domains.antt =====
-- apps/control/src/domains.ts: attaching, verifying and detaching a custom domain; a verification is
-- cut where it waits for the TXT records. `toLowerCase`,
-- the answer of the TXT lookup (`none` where it throws), the random token and the configured limit
-- are arguments; a reply is its kind, and the notes on reachability and the events are left out.
mod Tests
pub mod Proof
pub mod Sound
pub mod Same
pub mod Routed
use sproutboat.Base.{
  ℕ, ◌+◌, Bool, true, false, ◌&&◌, ◌||◌, not, any, all, Option, none, some, List, [], ◌∷◌, ◌++◌,
  length, ltb, leb, ◌==◌, if◌then◌else◌, pair_eq,
}
use sproutboat.Base.Codes.{Text, codes, text_eq, text_eq_inst}
use sproutboat.Base.Dict
use sproutboat.Base.Dict.{Dict}
use sproutboat.Base.Split.{split, trim, last}
use sproutboat.Control.Store.{Pair, CustomDomain, Database}
use sproutboat.Control.Store.Deployments.{project_deployments}
use sproutboat.Control.Store.Domains.{
  is_verified, custom_domain_by_hostname, project_custom_domains, ClaimResult, claimed_domain,
  verified_elsewhere, already_yours, claim_custom_domain, mark_custom_domain_verified,
  delete_custom_domain,
}
use sproutboat.Control.Deploys.Uploads.{is_alnum, is_label_char, strip_suffix}

unfoldable pub ends_with : Text → Text → Bool
unfolding strip_suffix
ends_with suffix s = elim (strip_suffix suffix s) [ none ↦ false | some _ ↦ true ]

unfoldable pub is_platform_managed_host : Text → Text → Bool
unfolding ends_with
is_platform_managed_host hostname base =
    not (text_eq hostname base)
    && (not (text_eq hostname (codes "www." ++ base)) && ends_with (46 ∷ base) hostname)

-- [a-z0-9](?:[a-z0-9-]{0,61}[a-z0-9])?
unfoldable pub is_dns_label : Text → Bool
unfolding is_alnum is_label_char
is_dns_label [] = false
is_dns_label (c ∷ rest) =
    is_alnum c
    && (all is_label_char rest
        && (leb (length rest) 62 && elim (last (c ∷ rest)) [ none ↦ false | some e ↦ is_alnum e ]))

-- [a-z][a-z0-9-]{0,61}[a-z0-9]
unfoldable pub is_top_label : Text → Bool
unfolding is_dns_label
is_top_label [] = false
is_top_label (c ∷ rest) =
    leb 97 c && (leb c 122 && (not (text_eq rest []) && is_dns_label (c ∷ rest)))

unfoldable pub are_labels : List Text → Bool
unfolding is_dns_label is_top_label
are_labels [] = false
are_labels (a ∷ []) = false
are_labels (a ∷ b ∷ []) = is_dns_label a && is_top_label b
are_labels (a ∷ b ∷ c ∷ rest) = is_dns_label a && are_labels (b ∷ c ∷ rest)

-- HOSTNAME
unfoldable pub is_hostname : Text → Bool
unfolding are_labels
is_hostname s = leb (length s) 253 && are_labels (split 46 s)

pub data DomainReply : Type 0 where
  not_deployed : DomainReply
  bad_hostname : DomainReply
  platform_managed : DomainReply
  already_claimed : DomainReply
  too_many_domains : DomainReply
  added : CustomDomain → DomainReply
  not_found : DomainReply
  lookup_failed : DomainReply
  no_match : DomainReply
  looks_up : CustomDomain → DomainReply
  verified_first : DomainReply
  is_already_verified : DomainReply
  now_verified : DomainReply
  removed : DomainReply

-- A holder that is verified, or the caller.
unfoldable pub holds_it : Text → Option (Pair × CustomDomain) → Bool
unfolding is_verified
holds_it owner none = false
holds_it owner (some (key, domain)) = text_eq key.1 owner || is_verified domain

-- The claim, `none` where the transaction throws.
unfoldable pub reply_to_claim :
    Database → Option (Database × ClaimResult) → Database × Option DomainReply
reply_to_claim db none = (db, none)
reply_to_claim db (some (after, claimed_domain domain)) = (after, some (added domain))
reply_to_claim db (some (after, _)) = (after, some already_claimed)

-- `addDomain`, of a hostname that is lower case.
unfoldable pub add_domain :
    Text → ℕ → Text → Text → Text → Text → ℕ → Database → Database × Option DomainReply
unfolding is_hostname is_platform_managed_host holds_it reply_to_claim
add_domain base max_domains token owner project hostname clock db =
    if length (project_deployments owner project db) == 0
    then (db, some not_deployed)
    else if not (is_hostname hostname)
    then (db, some bad_hostname)
    else if is_platform_managed_host hostname base
    then (db, some platform_managed)
    else if holds_it owner (custom_domain_by_hostname hostname clock db)
    then (db, some already_claimed)
    else if leb max_domains (length (project_custom_domains owner project db))
    then (db, some too_many_domains)
    else reply_to_claim db (claim_custom_domain hostname owner project token clock db)

-- `sproutboat-verify=`
unfoldable pub wanted_txt : Text → Text
wanted_txt token = codes "sproutboat-verify=" ++ token

unfoldable pub txt_name : Text → Text
txt_name hostname = codes "_sproutboat." ++ hostname

-- `chunks.join("")`
unfoldable pub joined : List Text → Text
joined [] = []
joined (chunk ∷ chunks) = chunk ++ joined chunks

unfoldable pub txt_matches : Text → List (List Text) → Bool
unfolding joined wanted_txt
txt_matches token records =
    any (λ chunks. text_eq (trim (joined chunks)) (wanted_txt token)) records

-- `projectCustomDomains(...).find(...)`
unfoldable pub own_domain : Text → Text → Text → Database → Option CustomDomain
own_domain owner project hostname db =
    Dict.passing (λ d. text_eq d.project project) (Dict.get (hostname, owner) db.custom_domains)

-- `verifyDomain` up to its lookup of the TXT records.
unfoldable pub begin_verify : Text → Text → Text → Database → DomainReply
unfolding own_domain is_verified
begin_verify owner project hostname db = elim (own_domain owner project hostname db) [
  | none ↦ not_found
  | some domain ↦ if is_verified domain then is_already_verified else looks_up domain
]

-- `verifyDomain` from the answer on, with the domain that was read before the lookup.
unfoldable pub check_txt :
    Option (List (List Text))
    → Text
    → Text
    → Text
    → CustomDomain
    → ℕ
    → Database
    → Database × DomainReply
unfolding txt_matches
check_txt none owner project hostname domain clock db = (db, lookup_failed)
check_txt (some records) owner project hostname domain clock db =
    if not (txt_matches domain.token records)
    then (db, no_match)
    else (let (after, marked) = mark_custom_domain_verified owner project hostname clock db in
        (after, if marked then now_verified else verified_first))

unfoldable pub delete_domain : Text → Text → Text → Database → Database × DomainReply
delete_domain owner project hostname db =
    let (after, gone) = delete_custom_domain owner project hostname db in
    (after, if gone then removed else not_found)
