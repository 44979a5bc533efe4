-- ===== src/Control/Domains/Sound.antt =====
-- apps/control/src/domains.ts: the tables stay sound.
use sproutboat.Base.{
  none, some, ℕ, sym, not, Option, List, length, leb, ◌==◌, if_ind, inl, inr, Option-cases, pair_eq,
}
use mathlib.Core.Path.{subst}
use sproutboat.Base.Codes.{Text, text_eq_inst}
use sproutboat.Control.Store.{CustomDomain, Database}
use sproutboat.Control.Store.Deployments.{project_deployments}
use sproutboat.Control.Store.Domains.{
  custom_domain_by_hostname, project_custom_domains, claim_custom_domain,
}
use sproutboat.Control.Store.Kept.{
  IsSound, claim_custom_domain-IsSound, mark_custom_domain_verified-IsSound,
  delete_custom_domain-IsSound,
}
use sproutboat.Control.Domains.{
  is_hostname, is_platform_managed_host, holds_it, DomainReply, reply_to_claim, add_domain,
  txt_matches, check_txt, delete_domain,
}
use sproutboat.Control.Domains.Proof.{reply_to_claim-tables}

reply_to_claim-IsSound :
    (hostname owner project token : Text) (clock : ℕ) (db : Database)
    → IsSound db
    → IsSound (reply_to_claim db (claim_custom_domain hostname owner project token clock db)).0
unfolding reply_to_claim
reply_to_claim-IsSound hostname owner project token clock db s =
    elim (Option-cases (claim_custom_domain hostname owner project token clock db)) [
      | inl threw ↦ rw (threw, reply_to_claim) s
      | inr ((after, result), did) ↦ rw did (
          subst (λ (z : Database). IsSound z) (sym (reply_to_claim-tables db after result))
            (claim_custom_domain-IsSound hostname owner project token clock db after result did s))
    ]

pub add_domain-IsSound :
    (base : Text) (max_domains : ℕ) (token owner project hostname : Text) (clock : ℕ)
    (db : Database)
    → IsSound db
    → IsSound (add_domain base max_domains token owner project hostname clock db).0
unfolding add_domain
add_domain-IsSound base max_domains token owner project hostname clock db s =
    let P = λ (z : Database × Option DomainReply). IsSound z.0 in
    if_ind P (length (project_deployments owner project db) == 0) _ _ (λ _. s)
      (λ _.
        if_ind P (not (is_hostname hostname)) _ _ (λ _. s)
          (λ _.
            if_ind P (is_platform_managed_host hostname base) _ _ (λ _. s)
              (λ _.
                if_ind P (holds_it owner (custom_domain_by_hostname hostname clock db)) _ _ (λ _. s)
                  (λ _.
                    if_ind P (leb max_domains (length (project_custom_domains owner project db))) _
                      _ (λ _. s)
                      (λ _. reply_to_claim-IsSound hostname owner project token clock db s)))))

pub check_txt-IsSound :
    (records : Option (List (List Text))) (owner project hostname : Text) (domain : CustomDomain)
    (clock : ℕ) (db : Database)
    → IsSound db
    → IsSound (check_txt records owner project hostname domain clock db).0
unfolding check_txt
check_txt-IsSound none owner project hostname domain clock db s = s
check_txt-IsSound (some records) owner project hostname domain clock db s =
    if_ind (λ (z : Database × DomainReply). IsSound z.0) (not (txt_matches domain.token records)) _
      _ (λ _. s) (λ _. mark_custom_domain_verified-IsSound owner project hostname clock db s)

pub delete_domain-IsSound :
    (owner project hostname : Text) (db : Database)
    → IsSound db
    → IsSound (delete_domain owner project hostname db).0
unfolding delete_domain
delete_domain-IsSound owner project hostname db s =
    delete_custom_domain-IsSound owner project hostname db s
