-- ===== src/Control/Limits/Tests.antt =====
-- apps/control/src/limits.ts: runs of the limiter, and the theorems at inputs.
use sproutboat.Base.{
  ℕ, ◌-◌, ◌≡◌, ◌≤◌, ◌+◌, ◌*◌, min, refl, true, false, Option, none, some, [], ◌∷◌, map, arith,
}
use sproutboat.Base.Codes.{Text, codes, text_eq, text_eq_inst, ascii_lower}
use sproutboat.Base.Split.{
  onto_first, split, last, is_blank, trim_start, trim_end, trim, starts_with, drop,
}
use sproutboat.Base.Dict
use sproutboat.Control.Limits.{
  Buckets, sweep_entries, sweep, wait_seconds, hit_bucket, rate_hit, Limits, by_ip, guard_deploy,
  guard_new_project,
}
use sproutboat.Control.Limits.Sweep.{open_at}
use sproutboat.Control.Limits.Window.{Call, admitted, calls_for, admitted-min, rate_hit-retry}
use sproutboat.Control.Limits.Address.{
  is_digit, digits_value, octet, octets_value, ipv4_to_int, same_prefix, present_or, trimmed,
  forwarded_hop, normalize_address, matches_parts, matches_proxy, trusted_entry, trusted_proxy,
  known_client, client_ip,
}
use sproutboat.Control.Limits.Certificates.{
  Issuance, recent, forget_old, seen_today, approve_new, tls_issuance_allowed,
}
use sproutboat.Control.Limits.Certificates.Ceiling.{newer}
use sproutboat.Control.Limits.Certificates.History.{History, nothing, asks, History-newer}

limiter : Unit {0}
unfolding sweep_entries sweep wait_seconds hit_bucket rate_hit guard_deploy guard_new_project
    Dict.get Dict.insert text_eq
limiter = tt

address : Unit {0}
unfolding is_digit digits_value octet octets_value ipv4_to_int same_prefix present_or trimmed
    forwarded_hop normalize_address matches_parts matches_proxy trusted_entry trusted_proxy
    known_client client_ip onto_first split last is_blank trim_start trim_end trim starts_with drop
    text_eq ascii_lower
address = tt

issuance : Unit {0}
unfolding recent forget_old seen_today approve_new tls_issuance_allowed Dict.get Dict.insert text_eq
issuance = tt

abbrev lower : Text → Text
lower = map ascii_lower

-- Two digits at most, which is what a prefix length has.
abbrev integer : Text → Option ℕ
integer (a ∷ []) = some (a - 48)
integer (a ∷ b ∷ []) = some ((a - 48) * 10 + (b - 48))
integer _ = none

abbrev ip_call : Text → ℕ → Call
ip_call key clock = record { key = key; limit = 2; clock = clock }

abbrev once : Buckets
once = (rate_hit (codes "k") 1 1000 []).0

rate_hit_tests :
    (admitted
        (codes "k")
        (ip_call (codes "k") 0
          ∷ ip_call (codes "k") 1
          ∷ ip_call (codes "j") 2
          ∷ ip_call (codes "k") 3
          ∷ [])
        []
      ≡ 2)
    × ((rate_hit (codes "k") 1 2500 once).1 ≡ 59)
    × ((rate_hit (codes "k") 1 61000 once).1 ≡ 0)
    × (guard_new_project
          (record { deploy_per_account = 1; deploy_per_ip = 1; projects_per_account = 2 })
          2
        ≡ true)
unfolding limiter admitted
rate_hit_tests = (refl, refl, refl, refl)

client_ip_tests :
    (matches_proxy lower integer (codes "10.1.2.3") (codes "10.1.0.0/16") ≡ true)
    × (matches_proxy lower integer (codes "10.2.2.3") (codes "10.1.0.0/16") ≡ false)
    × (normalize_address lower (codes " ::FFFF:10.0.0.1") ≡ codes "10.0.0.1")
unfolding address
client_ip_tests = (refl, refl, refl)

once-get : Dict.get (codes "k") once ≡ some (record { count = 1; reset_at = 61000 })
unfolding limiter
once-get = refl

once-refuses : rate_hit (codes "k") 1 2500 once ≡ (once, 59)
unfolding limiter
once-refuses = refl

none_open : open_at 1000 (Dict.get (codes "k") []) ≡ none
unfolding limiter
none_open = refl

once-Unique : Dict.Unique once
unfolding limiter
once-Unique = (refl, tt)

admitted-min_example :
    admitted
      (codes "k")
      (ip_call (codes "k") 1000
        ∷ ip_call (codes "j") 1500
        ∷ ip_call (codes "k") 60999
        ∷ ip_call (codes "k") 60999
        ∷ [])
      []
    ≡ min
        (1
          + calls_for (codes "k") (
              ip_call (codes "j") 1500
              ∷ ip_call (codes "k") 60999
              ∷ ip_call (codes "k") 60999
              ∷ []))
        2
admitted-min_example =
    admitted-min (codes "k") 2 1000
      (ip_call (codes "j") 1500 ∷ ip_call (codes "k") 60999 ∷ ip_call (codes "k") 60999 ∷ []) [] tt
      none_open (omega arith)
      ((omega arith, λ e. refl), ((omega arith, λ e. refl), ((omega arith, λ e. refl), tt)))

rate_hit-retry_example : (59 ≤ 60) × ((rate_hit (codes "k") 1 61500 once).1 ≡ 0)
rate_hit-retry_example =
    rate_hit-retry (codes "k") 1 2500 61500 59 (record { count = 1; reset_at = 61000 }) once once
      once-Unique once-get (omega arith) once-refuses (omega arith) (omega arith)

abbrev caps : Limits
caps = record { deploy_per_account = 2; deploy_per_ip = 1; projects_per_account = 2 }

abbrev deployed : Buckets
deployed = (guard_deploy caps (codes "u") (codes "ip") 1000 []).0

deployed-refuses :
    guard_deploy caps (codes "u") (codes "ip") 2500 deployed ≡ (deployed, some (by_ip 59))
unfolding limiter
deployed-refuses = refl

deployed-Unique : Dict.Unique deployed
unfolding limiter
deployed-Unique = (refl, (refl, tt))

home_address : ipv4_to_int (codes "127.0.0.1") ≡ some 2130706433
unfolding address
home_address = refl

stranger-untrusted : trusted_proxy lower integer (codes "10.0.0.0/8") (codes "8.8.8.8") ≡ false
unfolding address
stranger-untrusted = refl

proxy-trusted : trusted_proxy lower integer (codes "10.0.0.0/8") (codes "10.8.8.8") ≡ true
unfolding address
proxy-trusted = refl

hop-trim : trim (codes " 9.9.9.9") ≡ codes "9.9.9.9"
unfolding address
hop-trim = refl

-- A cap of one: the second new hostname within the hour is refused.
abbrev first_call : Issuance
first_call = (tls_issuance_allowed (codes "a") 1000 1 (record { seen = []; approvals = [] })).0

abbrev second_call : Issuance
second_call = (tls_issuance_allowed (codes "b") 2000 1 first_call).0

issued_once : History 1 2000 second_call ((codes "a", 1000) ∷ []) (1000 ∷ [])
unfolding issuance
issued_once = asks (codes "b") 2000 (asks (codes "a") 1000 nothing (omega arith)) (omega arith)

History-newer_example : newer 2000 (1000 ∷ []) ≤ 1
History-newer_example = History-newer 1 issued_once
