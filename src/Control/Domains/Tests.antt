-- ===== src/Control/Domains/Tests.antt =====
-- apps/control/src/domains.ts: runs of the domains, and the theorem at an input.
use sproutboat.Base.{◌≡◌, refl, true, false, Option, none, some, List, [], ◌∷◌, pair_eq}
use sproutboat.Base.Codes.{Text, codes, text_eq, text_eq_inst}
use sproutboat.Base.Bag
use sproutboat.Base.Dict
use sproutboat.Base.Split.{split, trim, last, onto_first, is_blank}
use sproutboat.Base.Order.{put, sort, slice, keep, text_leb}
use sproutboat.Control.Store.{
  Deployment, CustomDomain, Database, belongs, insert_new, meets_active, insert_deployment,
  set_inactive,
}
use sproutboat.Control.Store.Deployments.{project_deployments, link_resources, record_deployment}
use sproutboat.Control.Store.Domains.{
  is_verified, claim_is_stale, drop_stale_claims, has_verified, claim_custom_domain, open_claim,
  mark_custom_domain_verified, custom_domain_by_hostname, project_custom_domains,
  delete_custom_domain,
}
use sproutboat.Control.Store.Routes.{RouteRow, points_at, serves, domain_rows, route_rows}
use sproutboat.Control.Store.Releases.{tables}
use sproutboat.Control.Store.Reach.{no_rows}
use sproutboat.Control.Deploys.Uploads.{is_alnum, is_label_char, strip_suffix}
use sproutboat.Control.Domains.{
  ends_with, is_platform_managed_host, is_dns_label, is_top_label, are_labels, is_hostname,
  holds_it, reply_to_claim, add_domain, wanted_txt, joined, txt_matches, own_domain, check_txt,
  txt_name, begin_verify, delete_domain, looks_up, no_match, removed, now_verified,
  is_already_verified,
}
use sproutboat.Control.Domains.Routed.{
  World, Reach, here, next, asked, began, answered, deployed, nothing_yet, RoutesProven,
  Reach-RoutesProven,
}

domains : Unit {0}
unfolding belongs insert_new meets_active insert_deployment set_inactive project_deployments
    link_resources record_deployment is_verified claim_is_stale drop_stale_claims has_verified
    claim_custom_domain open_claim mark_custom_domain_verified custom_domain_by_hostname
    project_custom_domains delete_custom_domain points_at serves domain_rows route_rows is_alnum
    is_label_char strip_suffix ends_with is_platform_managed_host is_dns_label is_top_label
    are_labels is_hostname holds_it reply_to_claim add_domain wanted_txt joined txt_matches
    own_domain check_txt txt_name begin_verify delete_domain put sort keep text_leb Dict.get
    Dict.has Dict.insert Dict.delete Dict.filter Dict.update Dict.exists Bag.has Bag.add Bag.collect
    text_eq split trim last onto_first is_blank slice
domains = tt

hostname_tests :
    (is_hostname (codes "x.io") ≡ true)
    × (is_hostname (codes "io") ≡ false)
    × (is_hostname (codes "-x.io") ≡ false)
    × (is_hostname (codes "x.1o") ≡ false)
    × (is_hostname (codes "x.y-.io") ≡ false)
    × (is_platform_managed_host (codes "p.u.b.co") (codes "b.co") ≡ true)
    × (is_platform_managed_host (codes "www.b.co") (codes "b.co") ≡ false)
unfolding domains
hostname_tests = (refl, refl, refl, refl, refl, refl, refl)

abbrev base : Text
base = codes "b.co"

abbrev owner : Text
owner = codes "a"

abbrev app : Text
app = codes "p"

abbrev host : Text
host = codes "x.io"

abbrev version : Deployment
version = record {
  owner_id = owner;
  project = app;
  username = owner;
  hostname = codes "p.a.b.co";
  artifact = codes "d";
  sprout_path = codes "s";
  deployed_at = 10;
  active = false;
  binary_size = none;
  compile_ms = none;
}

abbrev kept_tables : Option Database → Database
kept_tables none = no_rows
kept_tables (some db) = db

abbrev one_version : Database
one_version = kept_tables (tables (record_deployment (codes "1") version [] no_rows))

abbrev with_claim : Database
with_claim = (add_domain base 2 (codes "t") owner app host 20 one_version).0

-- The record is answered in two chunks.
abbrev answer : List (List Text)
answer = (codes "other" ∷ []) ∷ (codes " sproutboat-" ∷ codes "verify=t" ∷ []) ∷ []

abbrev claim : CustomDomain
claim = record { project = app; token = codes "t"; verified_at = none; created_at = 20 }

abbrev with_domain : Database
with_domain = (check_txt (some answer) owner app host claim 30 with_claim).0

reply_tests :
    (begin_verify owner app host with_claim ≡ looks_up claim)
    × ((check_txt (some answer) owner app host claim 30 with_claim).1 ≡ now_verified)
    × (begin_verify owner app host with_domain ≡ is_already_verified)
    × ((check_txt (some []) owner app host claim 30 with_claim).1 ≡ no_match)
    × ((delete_domain owner app host with_domain).1 ≡ removed)
unfolding domains
reply_tests = (refl, refl, refl, refl, refl)

abbrev proven : World
proven = record {
  db = with_domain;
  claimed = ((host, owner), codes "t") ∷ [];
  waiting = [];
  answers = (codes "_sproutboat.x.io", answer) ∷ [];
}

path : Reach base nothing_yet proven
unfolding domains
path =
    next
      (next
        (next (next here (deployed (codes "1") version [] one_version _ refl))
          (asked 2 (codes "t") owner app host 20))
        (began owner app host claim refl))
      (answered (some answer) 30
        (record { owner = owner; project = app; hostname = host; domain = claim }) [] [] refl)

abbrev host_row : RouteRow
host_row = ((host, codes "s"), (owner, app))

host_routed : Bag.has host_row (route_rows with_domain) ≡ true
unfolding domains
host_routed = refl

Reach-RoutesProven_example : RoutesProven base proven host_row
Reach-RoutesProven_example = Reach-RoutesProven base host_row path host_routed
