-- ===== src/Control/Domains/Proof.antt =====
-- apps/control/src/domains.ts: what every row of the domains rests on.
use sproutboat.Base.{
  ℕ, ◌≡◌, ◌⊎◌, sym, ap, refl, ◌∙◌, Bool, true, false, ◌&&◌, not, Option, none, some, List, [], ◌∷◌,
  ◌++◌, length, leb, ◌==◌, if◌then◌else◌, arith, if_ind, inl, inr, Bool-cases, Option-cases,
  pair_eq,
}
use mathlib.Core.Path.{subst}
use sproutboat.Base.Bag
use sproutboat.Base.Codes.{Text, codes, text_eq, text_eq_iff, text_eq_inst}
use sproutboat.Base.Split.{trim}
use sproutboat.Base.Dict
use sproutboat.Base.Dict.{Dict, filter-some, insert-cases, passing-some}
use sproutboat.Control.Store.{Pair, CustomDomain, Database}
use sproutboat.Control.Store.Deployments.{project_deployments}
use sproutboat.Control.Store.Domains.{
  is_verified, drop_stale_claims, has_verified, claim_is_stale, custom_domain_by_hostname,
  project_custom_domains, ClaimResult, claimed_domain, verified_elsewhere, already_yours,
  claim_custom_domain, mark_custom_domain_verified,
}
use sproutboat.Control.Store.Ownership.{IsOwned}
use sproutboat.Control.Store.Claims.{marked, new_claim, mark_custom_domain_verified-done}
use sproutboat.Control.Domains.{
  is_hostname, is_platform_managed_host, holds_it, DomainReply, not_deployed, bad_hostname,
  platform_managed, already_claimed, too_many_domains, added, not_found, lookup_failed, no_match,
  looks_up, verified_first, is_already_verified, now_verified, removed, reply_to_claim, add_domain,
  txt_name, wanted_txt, joined, txt_matches, own_domain, begin_verify, check_txt,
}

-- A name with the TXT records that a lookup of it answered.
abbrev pub Answers : Type 0
Answers = List (Text × List (List Text))

-- The tokens of the claims that were added, each with its hostname and owner.
abbrev pub Claimed : Type 0
Claimed = List (Pair × Text)

abbrev pub Some : {A : Type 0} → (A → Type 0) → List A → Type 0
Some P [] = ⊥
Some P (x ∷ xs) = P x ⊎ Some P xs

abbrev pub concat : List Text → Text
concat [] = []
concat (chunk ∷ chunks) = chunk ++ concat chunks

-- A record of the list, its chunks put together, is the token's.
abbrev pub HasToken : Text → List (List Text) → Type 0
HasToken token records =
    Some (λ chunks. trim (concat chunks) ≡ codes "sproutboat-verify=" ++ token) records

-- A lookup of the hostname's name answered the token.
abbrev pub IsAnswered : Text → Text → Answers → Type 0
IsAnswered hostname token answers =
    Some
      (λ (answer : Text × List (List Text)).
        (answer.0 ≡ codes "_sproutboat." ++ hostname) × HasToken token answer.1)
      answers

abbrev pub noted : Text → Option (List (List Text)) → Answers → Answers
noted hostname none answers = answers
noted hostname (some records) answers = (txt_name hostname, records) ∷ answers

-- A claim of the hostname by the owner was added whose token a lookup has answered.
abbrev pub Vouched : Pair → Claimed → Answers → Type 0
Vouched key claimed answers =
    (token : Text) × (Bag.has (key, token) claimed ≡ true) × IsAnswered key.0 token answers

pub record IsProven (base : Text) (key : Pair) (domain : CustomDomain) (claimed : Claimed)
    (answers : Answers) : Type 0 where
  pub named : is_hostname key.0 ≡ true
  pub outside : is_platform_managed_host key.0 base ≡ false
  pub claims : Bag.has (key, domain.token) claimed ≡ true
  pub proved : is_verified domain ≡ true → Vouched key claimed answers

abbrev pub AllProven : Text → Dict Pair CustomDomain → Claimed → Answers → Type 0
AllProven base table claimed answers =
    (key : Pair) (domain : CustomDomain)
    → Dict.get key table ≡ some domain
    → IsProven base key domain claimed answers

joined-concat : (chunks : List Text) → joined chunks ≡ concat chunks
unfolding joined
joined-concat [] = refl
joined-concat (chunk ∷ chunks) = ap (λ t. chunk ++ t) (joined-concat chunks)

txt_matches-HasToken :
    (token : Text) (records : List (List Text))
    → txt_matches token records ≡ true
    → HasToken token records
unfolding txt_matches wanted_txt
txt_matches-HasToken token [] h = absurd (cc h)
txt_matches-HasToken token (chunks ∷ records) h =
    elim (Bool-cases (text_eq (trim (joined chunks)) (wanted_txt token))) [
      | inl same ↦ inl (
          ap trim (sym (joined-concat chunks))
          ∙ (text_eq_iff (trim (joined chunks)) (wanted_txt token)).0 same)
      | inr ne ↦ inr (txt_matches-HasToken token records (rw ne at h))
    ]

later_claim :
    (g key : Pair × Text) (claimed : Claimed)
    → Bag.has key claimed ≡ true
    → Bag.has key (g ∷ claimed) ≡ true
unfolding Bag.has
later_claim g key claimed h =
    if_ind (λ b. b ≡ true) (pair_eq.beq g key) true (Bag.has key claimed) (λ _. refl) (λ _. h)

-- A later answer takes nothing back.
noted-IsProven :
    (base hostname : Text) (key : Pair) (domain : CustomDomain)
    (records : Option (List (List Text))) (claimed : Claimed) (answers : Answers)
    → IsProven base key domain claimed answers
    → IsProven base key domain claimed (noted hostname records answers)
noted-IsProven base hostname key domain none claimed answers p = p
noted-IsProven base hostname key domain (some records) claimed answers p = record {
  named = p.named;
  outside = p.outside;
  claims = p.claims;
  proved = λ v. let (token, has, answered) = p.proved v in (token, has, inr answered);
}

-- A row after a claim was there, or is the claim that was added.
claimed_row :
    (hostname owner project token : Text) (clock : ℕ) (db after : Database) (result : ClaimResult)
    (key : Pair) (x : CustomDomain)
    → IsOwned db
    → claim_custom_domain hostname owner project token clock db ≡ some (after, result)
    → Dict.get key after.custom_domains ≡ some x
    → (Dict.get key db.custom_domains ≡ some x)
      ⊎ ((key ≡ (hostname, owner)) × (is_verified x ≡ false) × (result ≡ claimed_domain x))
unfolding claim_custom_domain drop_stale_claims is_verified
claimed_row hostname owner project token clock db after result key x o e h =
    let swept = drop_stale_claims hostname clock db in
    let Q = λ (z : Database × ClaimResult).
      Dict.get key z.0.custom_domains ≡ some x
      → (Dict.get key db.custom_domains ≡ some x)
        ⊎ ((key ≡ (hostname, owner)) × (is_verified x ≡ false) × (z.1 ≡ claimed_domain x)) in
    let P = λ (z : Option (Database × ClaimResult)). z ≡ some (after, result) → Q (after, result) in
    let was = λ (r : ClaimResult) (at : Dict.get key swept.custom_domains ≡ some x).
      let old =
        (filter-some key (λ k d. not (text_eq k.0 hostname && claim_is_stale clock d)) x
          db.custom_domains o.keys at).0 in
      old in
    if_ind P (has_verified hostname swept.custom_domains) _ _
      (λ _ same.
        moved Q (swept, verified_elsewhere) (after, result) same
          (λ at. inl (was verified_elsewhere at)))
      (λ _.
        if_ind P (Dict.has (hostname, owner) swept.custom_domains) _ _
          (λ _ same.
            moved Q (swept, already_yours) (after, result) same (λ at. inl (was already_yours at)))
          (λ _.
            if_ind P (not (Dict.has (owner, project) swept.projects)) _ _
              (λ _ same. absurd (cc same))
              (λ _ same.
                moved Q _ (after, result) same
                  (λ at.
                    elim (insert-cases (hostname, owner) key (new_claim project token clock) x
                      swept.custom_domains at) [
                        | inl (here, is) ↦
                            inr (sym here, ap is_verified (sym is), ap claimed_domain is)
                        | inr old ↦ inl (was already_yours old)
                      ]))))
      e h
  where
    moved :
        (Q : Database × ClaimResult → Type 0) (a b : Database × ClaimResult)
        → ◌≡◌ {A = Option (Database × ClaimResult)} (some a) (some b)
        → Q a
        → Q b
    moved Q a b same q = let is : a ≡ b = cc same in subst Q is q

pub reply_to_claim-tables :
    (db after : Database) (result : ClaimResult)
    → (reply_to_claim db (some (after, result))).0 ≡ after
unfolding reply_to_claim
reply_to_claim-tables db after (claimed_domain domain) = refl
reply_to_claim-tables db after verified_elsewhere = refl
reply_to_claim-tables db after already_yours = refl

-- A claim that was added notes its token.
abbrev pub note_claim : Text → Text → Option DomainReply → Claimed → Claimed
note_claim hostname owner (some (added domain)) claimed =
    ((hostname, owner), domain.token) ∷ claimed
note_claim hostname owner _ claimed = claimed

-- A later claim takes nothing back.
pub note_claim-has :
    (hostname owner : Text) (reply : Option DomainReply) (key : Pair × Text) (claimed : Claimed)
    → Bag.has key claimed ≡ true
    → Bag.has key (note_claim hostname owner reply claimed) ≡ true
note_claim-has hostname owner (some (added d)) key claimed h =
    later_claim ((hostname, owner), d.token) key claimed h
note_claim-has hostname owner none key claimed h = h
note_claim-has hostname owner (some not_deployed) key claimed h = h
note_claim-has hostname owner (some bad_hostname) key claimed h = h
note_claim-has hostname owner (some platform_managed) key claimed h = h
note_claim-has hostname owner (some already_claimed) key claimed h = h
note_claim-has hostname owner (some too_many_domains) key claimed h = h
note_claim-has hostname owner (some not_found) key claimed h = h
note_claim-has hostname owner (some lookup_failed) key claimed h = h
note_claim-has hostname owner (some no_match) key claimed h = h
note_claim-has hostname owner (some (looks_up d)) key claimed h = h
note_claim-has hostname owner (some verified_first) key claimed h = h
note_claim-has hostname owner (some is_already_verified) key claimed h = h
note_claim-has hostname owner (some now_verified) key claimed h = h
note_claim-has hostname owner (some removed) key claimed h = h

note_claim-IsProven :
    (base hostname owner : Text) (reply : Option DomainReply) (key : Pair) (domain : CustomDomain)
    (claimed : Claimed) (answers : Answers)
    → IsProven base key domain claimed answers
    → IsProven base key domain (note_claim hostname owner reply claimed) answers
note_claim-IsProven base hostname owner reply key domain claimed answers p = record {
  named = p.named;
  outside = p.outside;
  claims = note_claim-has hostname owner reply (key, domain.token) claimed p.claims;
  proved = λ v.
      let (token, has, answered) = p.proved v in
      (token, note_claim-has hostname owner reply (key, token) claimed has, answered);
}

looked_up :
    (b : Bool) (x y : CustomDomain)
    → (if b then is_already_verified else looks_up x) ≡ looks_up y
    → x ≡ y
looked_up true x y h = absurd (cc h)
looked_up false x y h = cc h

module _ (base : Text) (claimed : Claimed) (answers : Answers) where
  abbrev Kept : Text → Text → Database × Option DomainReply → Type 0
  Kept hostname owner z =
      AllProven base z.0.custom_domains (note_claim hostname owner z.1 claimed) answers

  -- The row of a new claim, which is not verified.
  new-IsProven :
      (hostname owner : Text) (key : Pair) (x : CustomDomain)
      → is_hostname hostname ≡ true
      → is_platform_managed_host hostname base ≡ false
      → key ≡ (hostname, owner)
      → is_verified x ≡ false
      → IsProven base key x (((hostname, owner), x.token) ∷ claimed) answers
  unfolding Bag.has
  new-IsProven hostname owner key x good outside is unverified = record {
    named = ap (λ (k : Pair). is_hostname k.0) is ∙ good;
    outside = ap (λ (k : Pair). is_platform_managed_host k.0 base) is ∙ outside;
    claims =
        rw
          ((pair_eq.beq_iff ((hostname, owner), x.token) (key, x.token)).1
            (ap (λ (k : Pair). (k, x.token)) (sym is)))
          refl;
    proved = λ v. absurd (cc (sym unverified ∙ v));
  }

  claimed-AllProven :
      (hostname owner project token : Text) (clock : ℕ) (db : Database)
      → IsOwned db
      → is_hostname hostname ≡ true
      → is_platform_managed_host hostname base ≡ false
      → AllProven base db.custom_domains claimed answers
      → Kept hostname owner
          (reply_to_claim db (claim_custom_domain hostname owner project token clock db))
  unfolding reply_to_claim
  claimed-AllProven hostname owner project token clock db o good outside all =
      elim (Option-cases (claim_custom_domain hostname owner project token clock db)) [
        | inl threw ↦ rw (threw, reply_to_claim) all
        | inr ((after, result), did) ↦ rw did (λ key x h.
            let there : Dict.get key after.custom_domains ≡ some x =
              ap (λ (z : Database). Dict.get key z.custom_domains)
                (sym (reply_to_claim-tables db after result))
              ∙ h in
            elim (claimed_row hostname owner project token clock db after result key x o did
              there) [
                | inl old ↦
                    note_claim-IsProven base hostname owner
                      (reply_to_claim db (some (after, result))).1 key x claimed answers
                      (all key x old)
                | inr (is, unverified, made) ↦
                    rw made (new-IsProven hostname owner key x good outside is unverified)
              ])
      ]

  pub add_domain-AllProven :
      (max_domains : ℕ) (token owner project hostname : Text) (clock : ℕ) (db : Database)
      → IsOwned db
      → AllProven base db.custom_domains claimed answers
      → Kept hostname owner (add_domain base max_domains token owner project hostname clock db)
  unfolding add_domain
  add_domain-AllProven max_domains token owner project hostname clock db o all =
      let P = λ (z : Database × Option DomainReply). Kept hostname owner z in
      if_ind P (length (project_deployments owner project db) == 0) _ _ (λ _. all)
        (λ _.
          if_ind P (not (is_hostname hostname)) _ _ (λ _. all)
            (λ good.
              if_ind P (is_platform_managed_host hostname base) _ _ (λ _. all)
                (λ outside.
                  if_ind P (holds_it owner (custom_domain_by_hostname hostname clock db)) _ _
                    (λ _. all)
                    (λ _.
                      if_ind P (leb max_domains (length (project_custom_domains owner project db)))
                        _ _ (λ _. all)
                        (λ _.
                          claimed-AllProven hostname owner project token clock db o
                            (ground (arith, good)) outside all)))))

  -- The row that a marking changes belongs to an owner who had a token in the TXT records.
  marked-AllProven :
      (owner project hostname : Text) (records : List (List Text)) (token : Text) (clock : ℕ)
      (db : Database)
      → IsOwned db
      → Bag.has ((hostname, owner), token) claimed ≡ true
      → txt_matches token records ≡ true
      → AllProven base db.custom_domains claimed answers
      → AllProven base
          (mark_custom_domain_verified owner project hostname clock db).0.custom_domains
          claimed
          (noted hostname (some records) answers)
  unfolding txt_name
  marked-AllProven owner project hostname records token clock db o mine found all key x =
      let kept = λ (y : CustomDomain) (h : Dict.get key db.custom_domains ≡ some y).
        noted-IsProven base hostname key y (some records) claimed answers (all key y h) in
      elim (mark_custom_domain_verified-done owner project hostname clock db) [
        | inl same ↦ rw same (λ h. kept x h)
        | inr (found_domain, is, _, here, _) ↦ rw is (λ h.
            let (in_table, _) =
              filter-some key (λ k _. not (text_eq k.0 hostname && not (text_eq k.1 owner))) x
                (Dict.insert (hostname, owner) (marked clock found_domain) db.custom_domains)
                (Dict.insert-Unique (hostname, owner) (marked clock found_domain) db.custom_domains
                  o.keys)
                h in
            elim (insert-cases (hostname, owner) key (marked clock found_domain) x db.custom_domains
              in_table) [
                | inr old ↦ kept x old
                | inl (same_key, new) ↦
                    let before = all (hostname, owner) found_domain here in
                    record {
                      named = ap (λ (k : Pair). is_hostname k.0) (sym same_key) ∙ before.named;
                      outside =
                          ap (λ (k : Pair). is_platform_managed_host k.0 base) (sym same_key)
                          ∙ before.outside;
                      claims =
                          ap (λ (k : Pair). Bag.has (k, x.token) claimed) (sym same_key)
                          ∙ ap (λ (d : CustomDomain). Bag.has ((hostname, owner), d.token) claimed)
                              (sym new)
                          ∙ before.claims;
                      proved = λ _. (
                        token,
                        ap (λ (k : Pair). Bag.has (k, token) claimed) (sym same_key) ∙ mine,
                        inl (
                          ap (λ (k : Pair). txt_name k.0) same_key,
                          txt_matches-HasToken token records found,
                        ),
                      );
                    }
              ])
      ]

  pub check_txt-AllProven :
      (records : Option (List (List Text))) (owner project hostname : Text) (domain : CustomDomain)
      (clock : ℕ) (db : Database)
      → IsOwned db
      → Bag.has ((hostname, owner), domain.token) claimed ≡ true
      → AllProven base db.custom_domains claimed answers
      → AllProven base
          (check_txt records owner project hostname domain clock db).0.custom_domains
          claimed
          (noted hostname records answers)
  unfolding check_txt
  check_txt-AllProven none owner project hostname domain clock db o mine all = all
  check_txt-AllProven (some records) owner project hostname domain clock db o mine all =
      if_ind
        (λ (z : Database × DomainReply).
          AllProven base z.0.custom_domains claimed (noted hostname (some records) answers))
        (not (txt_matches domain.token records)) _ _
        (λ _ key x h.
          noted-IsProven base hostname key x (some records) claimed answers (all key x h))
        (λ found.
          marked-AllProven owner project hostname records domain.token clock db o mine
            (ground (arith, found)) all)

  -- The domain that a verification looks up is a row, whose token was claimed.
  pub begin_verify-claimed :
      (owner project hostname : Text) (domain : CustomDomain) (db : Database)
      → AllProven base db.custom_domains claimed answers
      → begin_verify owner project hostname db ≡ looks_up domain
      → Bag.has ((hostname, owner), domain.token) claimed ≡ true
  unfolding begin_verify own_domain
  begin_verify-claimed owner project hostname domain db all h =
      elim (Option-cases (own_domain owner project hostname db)) [
        | inl gone ↦ absurd (cc (rw (gone, begin_verify) at h))
        | inr (found, mine) ↦
            let (at, _) = passing-some (λ d. text_eq d.project project) _ found mine in
            let p = all (hostname, owner) found at in
            let looked : (if is_verified found then is_already_verified else looks_up found)
                ≡ looks_up domain =
              rw (mine, begin_verify) at h in
            ap (λ (d : CustomDomain). Bag.has ((hostname, owner), d.token) claimed)
              (sym (looked_up (is_verified found) found domain looked))
            ∙ p.claims
      ]
