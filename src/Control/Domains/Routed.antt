-- ===== src/Control/Domains/Routed.antt =====
-- apps/control/src/domains.ts over store.ts: from a claim to a route.
use sproutboat.Base.{
  ℕ, ◌≡◌, ◌⊎◌, true, false, Option, some, List, [], ◌∷◌, ◌++◌, All, inl, inr, pair_eq,
}
use mathlib.Core.Path.{subst}
use sproutboat.Base.Codes.{Text, text_eq_inst}
use sproutboat.Base.Bag
use sproutboat.Base.Dict
use sproutboat.Base.Dict.{Dict}
use sproutboat.Control.Store.{CustomDomain, Deployment, Database}
use sproutboat.Control.Store.Deployments.{
  record_deployment, activate_deployment, delete_project, ban_owner, unban_owner,
}
use sproutboat.Control.Store.Routes.{RouteRow, row_of, route_rows}
use sproutboat.Control.Store.Kept.{
  IsSound, record_deployment-IsOwned, activate_deployment-IsOwned, delete_project-IsSound,
  ban_owner-IsSound, unban_owner-IsSound,
}
use sproutboat.Control.Store.Promotion.{record_deployment-IsValid, activate_deployment-IsValid}
use sproutboat.Control.Store.Reach.{no_rows, no_rows-IsSound}
use sproutboat.Control.Store.Serving.{route_rows_iff}
use sproutboat.Control.Domains.{
  is_hostname, is_platform_managed_host, DomainReply, looks_up, add_domain, begin_verify, check_txt,
  delete_domain,
}
use sproutboat.Control.Domains.Proof.{
  Answers, Claimed, Vouched, noted, note_claim, note_claim-has, AllProven, add_domain-AllProven,
  begin_verify-claimed, check_txt-AllProven,
}
use sproutboat.Control.Domains.Sound.{add_domain-IsSound, check_txt-IsSound, delete_domain-IsSound}
use sproutboat.Control.Domains.Same.{
  Fewer, record_deployment-Fewer, activate_deployment-Fewer, delete_project-Fewer,
  delete_domain-Fewer, ban_owner-Fewer,
}

-- A verification that waits for the answer of its lookup.
pub record Lookup : Type 0 where
  pub owner : Text
  pub project : Text
  pub hostname : Text
  pub domain : CustomDomain

-- The tables, the claims that were added, the verifications that wait, and every answer that a TXT
-- lookup gave.
pub record World : Type 0 where
  pub db : Database
  pub claimed : Claimed
  pub waiting : List Lookup
  pub answers : Answers

pub data Step (base : Text) (w : World) : World → Type 0 where
  asked :
      (max_domains : ℕ) (token owner project hostname : Text) (clock : ℕ)
      → Step base w (record w {
        db = (add_domain base max_domains token owner project hostname clock w.db).0;
        claimed =
            note_claim hostname owner
              (add_domain base max_domains token owner project hostname clock w.db).1
              w.claimed;
      })
  began :
      (owner project hostname : Text) (domain : CustomDomain)
      → begin_verify owner project hostname w.db ≡ looks_up domain
      → Step base w (record w {
        waiting =
            record { owner = owner; project = project; hostname = hostname; domain = domain }
            ∷ w.waiting;
      })
  answered :
      (records : Option (List (List Text))) (clock : ℕ) (l : Lookup) (before after : List Lookup)
      → w.waiting ≡ before ++ l ∷ after
      → Step base w (record w {
        db = (check_txt records l.owner l.project l.hostname l.domain clock w.db).0;
        waiting = before ++ after;
        answers = noted l.hostname records w.answers;
      })
  detached :
      (owner project hostname : Text)
      → Step base w (record w { db = (delete_domain owner project hostname w.db).0 })
  deployed :
      (id : Text) (input : Deployment) (rs : List Text) (after : Database) (d : Deployment)
      → record_deployment id input rs w.db ≡ some (after, d)
      → Step base w (record w { db = after })
  activated :
      (owner project id : Text) (after : Database) (d : Option Deployment)
      → activate_deployment owner project id w.db ≡ some (after, d)
      → Step base w (record w { db = after })
  closed :
      (owner project : Text) → Step base w (record w { db = (delete_project owner project w.db).0 })
  banned : (owner : Text) (clock : ℕ) → Step base w (record w { db = ban_owner owner clock w.db })
  unbanned : (owner : Text) → Step base w (record w { db = unban_owner owner w.db })

pub data Reach (base : Text) (w : World) : World → Type 0 where
  here : Reach base w w
  next : {x y : World} → Reach base w x → Step base x y → Reach base w y

-- The token that a waiting verification looks for is a claim's.
abbrev AllClaimed : Claimed → List Lookup → Type 0
AllClaimed claimed waiting =
    All (λ (l : Lookup). Bag.has ((l.hostname, l.owner), l.domain.token) claimed ≡ true) waiting

record IsKept (base : Text) (w : World) : Type 0 where
  pub sound : IsSound w.db
  pub all : AllProven base w.db.custom_domains w.claimed w.answers
  pub sought : AllClaimed w.claimed w.waiting

Fewer-IsKept :
    (base : Text) (w : World) (after : Database)
    → IsSound after
    → Fewer w.db after
    → IsKept base w
    → IsKept base (record w { db = after })
Fewer-IsKept base w after s f k = record {
  sound = s;
  all = λ key x h.
      let p = k.all key x (f key x h) in
      record { named = p.named; outside = p.outside; claims = p.claims; proved = p.proved };
  sought = k.sought;
}

unban_owner-Fewer : (owner : Text) (db : Database) → Fewer db (unban_owner owner db)
unfolding unban_owner
unban_owner-Fewer owner db key x h = h

note_claim-AllClaimed :
    (hostname owner : Text) (reply : Option DomainReply) (claimed : Claimed) (waiting : List Lookup)
    → AllClaimed claimed waiting
    → AllClaimed (note_claim hostname owner reply claimed) waiting
note_claim-AllClaimed hostname owner reply claimed [] a = tt
note_claim-AllClaimed hostname owner reply claimed (l ∷ waiting) (h, a) = (
  note_claim-has hostname owner reply ((l.hostname, l.owner), l.domain.token) claimed h,
  note_claim-AllClaimed hostname owner reply claimed waiting a,
)

AllClaimed-split :
    (claimed : Claimed) (before : List Lookup) (l : Lookup) (after : List Lookup)
    → AllClaimed claimed (before ++ l ∷ after)
    → (Bag.has ((l.hostname, l.owner), l.domain.token) claimed ≡ true)
      × AllClaimed claimed (before ++ after)
AllClaimed-split claimed [] l after a = a
AllClaimed-split claimed (m ∷ before) l after (h, a) =
    let (mine, rest) = AllClaimed-split claimed before l after a in (mine, (h, rest))

Step-IsKept :
    (base : Text) {w after : World} → Step base w after → IsKept base w → IsKept base after
Step-IsKept base {w} (asked max_domains token owner project hostname clock) k = record {
  sound = add_domain-IsSound base max_domains token owner project hostname clock w.db k.sound;
  all =
      add_domain-AllProven base w.claimed w.answers max_domains token owner project hostname clock
        w.db k.sound.owned k.all;
  sought =
      note_claim-AllClaimed hostname owner
        (add_domain base max_domains token owner project hostname clock w.db).1 w.claimed w.waiting
        k.sought;
}
Step-IsKept base {w} (began owner project hostname domain e) k = record {
  sound = k.sound;
  all = k.all;
  sought = (
    begin_verify-claimed base w.claimed w.answers owner project hostname domain w.db k.all e,
    k.sought,
  );
}
Step-IsKept base {w} (answered records clock l before after e) k =
    let (mine, rest) =
      AllClaimed-split w.claimed before l after
        (subst (λ ls. AllClaimed w.claimed ls) e k.sought) in
    record {
      sound = check_txt-IsSound records l.owner l.project l.hostname l.domain clock w.db k.sound;
      all =
          check_txt-AllProven base w.claimed w.answers records l.owner l.project l.hostname l.domain
            clock w.db k.sound.owned mine k.all;
      sought = rest;
    }
Step-IsKept base {w} (detached owner project hostname) k =
    Fewer-IsKept base w (delete_domain owner project hostname w.db).0
      (delete_domain-IsSound owner project hostname w.db k.sound)
      (delete_domain-Fewer owner project hostname w.db) k
Step-IsKept base {w} (deployed id input rs after d e) k =
    Fewer-IsKept base w after
      (record {
        valid = record_deployment-IsValid id input rs w.db after d e k.sound.valid;
        owned = record_deployment-IsOwned id input rs w.db after d e k.sound.owned;
      })
      (record_deployment-Fewer id input rs w.db after d e) k
Step-IsKept base {w} (activated owner project id after d e) k =
    Fewer-IsKept base w after
      (record {
        valid = activate_deployment-IsValid owner project id w.db after d e k.sound.valid;
        owned = activate_deployment-IsOwned owner project id w.db after d e k.sound.owned;
      })
      (activate_deployment-Fewer owner project id w.db after d e) k
Step-IsKept base {w} (closed owner project) k =
    Fewer-IsKept base w (delete_project owner project w.db).0
      (delete_project-IsSound owner project w.db k.sound)
      (delete_project-Fewer owner project w.db k.sound.owned) k
Step-IsKept base {w} (banned owner clock) k =
    Fewer-IsKept base w (ban_owner owner clock w.db) (ban_owner-IsSound owner clock w.db k.sound)
      (ban_owner-Fewer owner clock w.db) k
Step-IsKept base {w} (unbanned owner) k =
    Fewer-IsKept base w (unban_owner owner w.db) (unban_owner-IsSound owner w.db k.sound)
      (unban_owner-Fewer owner w.db) k

abbrev pub nothing_yet : World
nothing_yet = record { db = no_rows; claimed = []; waiting = []; answers = [] }

Reach-IsKept : (base : Text) {w : World} → Reach base nothing_yet w → IsKept base w
unfolding Dict.get
Reach-IsKept base here = record {
  sound = no_rows-IsSound;
  all = λ key x h. absurd (cc h);
  sought = tt;
}
Reach-IsKept base (next r step) = Step-IsKept base step (Reach-IsKept base r)

-- A well-formed host outside the platform's, for which a lookup answered the token of a claim that
-- the owner had added.
abbrev pub IsVouched : Text → Text → Text → World → Type 0
IsVouched base hostname owner w =
    (is_hostname hostname ≡ true)
    × (is_platform_managed_host hostname base ≡ false)
    × Vouched (hostname, owner) w.claimed w.answers

-- A row routes an active version on its own host, or on a host that was vouched for.
abbrev pub RoutesProven : Text → World → RouteRow → Type 0
RoutesProven base w r =
    (id : Text) × (d : Deployment) × (Dict.get id w.db.deployments ≡ some d)
    × (d.active ≡ true)
    × (row_of r.0.0 d ≡ r)
    × ((r.0.0 ≡ d.hostname) ⊎ IsVouched base r.0.0 d.owner_id w)

-- However requests for domains, TXT lookups, their answers, deploys, rollbacks, deletions of domains
-- and projects, and bans interleave, from an empty database: every row of the routing snapshot routes an active version,
-- on the version's own host, or on a well-formed host outside the platform's for which the
-- version's owner added a claim whose token a lookup of `_sproutboat.<host>` has answered as
-- `sproutboat-verify=<token>`.
pub Reach-RoutesProven :
    (base : Text) {w : World} (r : RouteRow)
    → Reach base nothing_yet w
    → Bag.has r (route_rows w.db) ≡ true
    → RoutesProven base w r
Reach-RoutesProven base {w} r reach routed =
    let k = Reach-IsKept base reach in
    let (id, d, served, row) = (route_rows_iff w.db r k.sound).0 routed in
    (
      id,
      d,
      served.at,
      served.live,
      row,
      elim served.name [
        | inl own ↦ inl own
        | inr (domain, at, _, verified) ↦
            let p = k.all (r.0.0, d.owner_id) domain at in
            inr (p.named, p.outside, p.proved verified)
      ],
    )
