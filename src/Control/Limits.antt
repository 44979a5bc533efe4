-- ===== src/Control/Limits.antt =====
-- apps/control/src/limits.ts: the fixed-window limiter, the guards of a deploy and of a new
-- project, the caller's address and the ceiling on new certificates. Times are milliseconds.
-- A limit is a positive number; one with a fraction acts as the next whole number.
mod Tests
pub mod Sweep
pub mod Window
pub mod Address
pub mod Certificates
use sproutboat.Base.{
  ℕ, ◌+◌, ◌-◌, ◌*◌, ◌/◌, ◌^◌, max, Bool, true, false, ◌&&◌, ◌||◌, not, Option, none, some, List, [],
  ◌∷◌, ◌++◌, length, any, all, ltb, leb, ◌==◌, if◌then◌else◌,
}
use sproutboat.Base.Codes.{Text, codes, text_eq, text_eq_inst}
use sproutboat.Base.Split.{split, last, trim, starts_with, drop}
use sproutboat.Base.Dict
use sproutboat.Base.Dict.{Dict}

pub record Bucket : Type 0 where
  pub count : ℕ
  pub reset_at : ℕ

abbrev pub Buckets : Type 0
Buckets = Dict Text Bucket

abbrev pub window_ms : ℕ
window_ms = 60000

unfoldable pub sweep_entries : ℕ → Buckets → Buckets
sweep_entries clock [] = []
sweep_entries clock ((key, bucket) ∷ m) =
    let rest = sweep_entries clock m in
    if leb bucket.reset_at clock then rest else (key, bucket) ∷ rest

unfoldable pub sweep : ℕ → Buckets → Buckets
sweep clock m = if ltb (length m) 4096 then m else sweep_entries clock m

-- `Math.max(1, Math.ceil((resetAt - now) / 1000))`
unfoldable pub wait_seconds : ℕ → ℕ → ℕ
wait_seconds clock reset_at = max 1 ((reset_at - clock + 999) / 1000)

unfoldable pub hit_bucket : Text → ℕ → ℕ → Buckets → Option Bucket → Buckets × ℕ
unfolding wait_seconds
hit_bucket key limit clock m none =
    (Dict.insert key (record { count = 1; reset_at = clock + window_ms }) m, 0)
hit_bucket key limit clock m (some bucket) =
    if leb bucket.reset_at clock
    then (Dict.insert key (record { count = 1; reset_at = clock + window_ms }) m, 0)
    else if ltb bucket.count limit
    then (Dict.insert key (record bucket { count = bucket.count + 1 }) m, 0)
    else (m, wait_seconds clock bucket.reset_at)

-- `rateHit`: the seconds to wait, 0 under the limit.
unfoldable pub rate_hit : Text → ℕ → ℕ → Buckets → Buckets × ℕ
unfolding sweep hit_bucket
rate_hit key limit clock m =
    let swept = sweep clock m in hit_bucket key limit clock swept (Dict.get key swept)

pub data Refusal : Type 0 where
  by_ip : ℕ → Refusal
  by_account : ℕ → Refusal

pub record Limits : Type 0 where
  pub deploy_per_account : ℕ
  pub deploy_per_ip : ℕ
  pub projects_per_account : ℕ

abbrev pub ip_key : Text → Text
ip_key ip = codes "deploy:ip:" ++ ip

abbrev pub account_key : Text → Text
account_key actor = codes "deploy:acct:" ++ actor

-- `guardDeploy`, from the caller's address on; a refusal carries its `retry-after`.
unfoldable pub guard_deploy : Limits → Text → Text → ℕ → Buckets → Buckets × Option Refusal
guard_deploy limits actor ip clock m =
    let (m1, wait) = rate_hit (ip_key ip) limits.deploy_per_ip clock m in
    if ltb 0 wait
    then (m1, some (by_ip wait))
    else (let (m2, wait2) = rate_hit (account_key actor) limits.deploy_per_account clock m1 in
        if ltb 0 wait2 then (m2, some (by_account wait2)) else (m2, none))

-- `guardNewProject`: whether a further project is refused.
unfoldable pub guard_new_project : Limits → ℕ → Bool
guard_new_project limits current = not (ltb current limits.projects_per_account)
