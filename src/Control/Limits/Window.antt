-- ===== src/Control/Limits/Window.antt =====
-- apps/control/src/limits.ts, `rateHit`, its sweep, and `guardDeploy`: calls in sequence.
use sproutboat.Base.{
  ℕ, ◌+◌, ◌-◌, ◌*◌, ◌≤◌, ◌<◌, ◌≡◌, sym, ap, ◌∙◌, refl, min, false, Option, none, some, List, [],
  ◌∷◌, ltb, leb, ◌==◌, if◌then◌else◌, arith, if_ind, ltb→lt, Bool-cases, Option-cases, inl, inr,
  All,
}
use sproutboat.Base.Codes.{Text, text_eq, text_eq_inst, text_eq_iff, text_eq_self}
use sproutboat.Base.Dict
use mathlib.Core.Path.{subst}
use sproutboat.Base.Dict.{Dict, get-insert, get-insert_self}
use sproutboat.Control.Limits.{
  Limits, Refusal, by_ip, by_account, ip_key, account_key, guard_deploy, Bucket, Buckets, window_ms,
  sweep, wait_seconds, hit_bucket, rate_hit,
}
use sproutboat.Control.Limits.Sweep.{open_at, sweep-get, sweep-open, sweep-Unique}

-- A call of `rateHit` for some key.
pub record Call : Type 0 where
  pub key : Text
  pub limit : ℕ
  pub clock : ℕ

-- How many of the calls for one key are admitted, in order.
unfoldable pub admitted : Text → List Call → Buckets → ℕ
admitted key [] m = 0
admitted key (c ∷ calls) m =
    let (after, wait) = rate_hit c.key c.limit c.clock m in
    (if text_eq c.key key then (if wait == 0 then 1 else 0) else 0) + admitted key calls after

unfoldable pub calls_for : Text → List Call → ℕ
calls_for key [] = 0
calls_for key (c ∷ calls) = (if text_eq c.key key then 1 else 0) + calls_for key calls

other_key :
    (key : Text) (c : Call) (m : Buckets) (o : Option Bucket)
    → text_eq c.key key ≡ false
    → Dict.get key (hit_bucket c.key c.limit c.clock m o).0 ≡ Dict.get key m
unfolding hit_bucket
other_key key c m none ne =
    rw (get-insert c.key key (record { count = 1; reset_at = c.clock + window_ms }) m, ne) refl
other_key key c m (some b) ne =
    if_ind {A = Buckets × ℕ} (λ z. Dict.get key z.0 ≡ Dict.get key m) (leb b.reset_at c.clock) _ _
      (λ _.
        rw (get-insert c.key key (record { count = 1; reset_at = c.clock + window_ms }) m, ne) refl)
      (λ _.
        if_ind {A = Buckets × ℕ} (λ z. Dict.get key z.0 ≡ Dict.get key m) (ltb b.count c.limit) _ _
          (λ _. rw (get-insert c.key key (record b { count = b.count + 1 }) m, ne) refl)
          (λ _. refl))

wait_seconds_positive : (clock reset_at : ℕ) → (wait_seconds clock reset_at == 0) ≡ false
unfolding wait_seconds
wait_seconds_positive clock reset_at = ground arith

-- A call of the key in its open window.
open_window :
    (key : Text) (limit clock : ℕ) (b : Bucket) (m : Buckets)
    → Dict.get key m ≡ some b
    → clock < b.reset_at
    → rate_hit key limit clock m ≡ (
        if ltb b.count limit
        then (Dict.insert key (record b { count = b.count + 1 }) (sweep clock m), 0)
        else (sweep clock m, wait_seconds clock b.reset_at))
unfolding rate_hit
open_window key limit clock b m h l = rw (sweep-get key b clock m h l, hit_bucket) (ground arith)

counted :
    (key : Text) (limit : ℕ) (b : Bucket) (calls : List Call) (m : Buckets)
    → Dict.get key m ≡ some b
    → All (λ c. (c.clock < b.reset_at) × (c.key ≡ key → c.limit ≡ limit)) calls
    → admitted key calls m ≡ min (calls_for key calls) (limit - b.count)
unfolding admitted calls_for rate_hit
counted key limit b [] m e h = omega arith
counted key limit b (c ∷ calls) m e ((in_time, same_limit), h) =
    elim (Bool-cases (text_eq c.key key)) [
      | inl same ↦
          let key_eq = (text_eq_iff c.key key).0 same in
          let limit_eq = same_limit key_eq in
          let bumped = record b { count = b.count + 1 } in
          rw
            (
              same,
              open_window c.key c.limit c.clock b m
                  (subst (λ k. Dict.get k m ≡ some b) (sym key_eq) e) in_time,
            )
            (elim (Bool-cases (ltb b.count c.limit)) [
              | inl room ↦ rw room (
                  omega (
                    arith,
                    limit_eq,
                    ltb→lt b.count c.limit room,
                    counted key limit bumped calls (Dict.insert c.key bumped (sweep c.clock m))
                        (rw (get-insert c.key key bumped (sweep c.clock m), same) refl) h,
                  ))
              | inr full ↦
                  rw (full, wait_seconds_positive c.clock b.reset_at)
                    (ground (
                      arith,
                      limit_eq,
                      counted key limit b calls (sweep c.clock m)
                          (sweep-get key b c.clock m e in_time) h,
                    ))
            ])
      | inr ne ↦ rw ne (
          omega (
            arith,
            counted key limit b calls (rate_hit c.key c.limit c.clock m).0
                (other_key key c (sweep c.clock m) (Dict.get c.key (sweep c.clock m)) ne
                  ∙ sweep-get key b c.clock m e in_time)
                h,
          ))
    ]

-- A call of a key without an open window.
new_window :
    (key : Text) (limit clock : ℕ) (m : Buckets)
    → Dict.Unique m
    → open_at clock (Dict.get key m) ≡ none
    → rate_hit key limit clock m
      ≡ (Dict.insert key (record { count = 1; reset_at = clock + window_ms }) (sweep clock m), 0)
unfolding rate_hit
new_window key limit clock m u h =
    let closed = sweep-open key clock m u ∙ h in
    elim (Option-cases (Dict.get key (sweep clock m))) [
      | inl e ↦ rw (e, hit_bucket) refl
      | inr (b, e) ↦ let expired = rw e at closed in rw (e, hit_bucket) (ground arith)
    ]

-- A call that opens a window for its key, in a map that has no key twice, and further calls for
-- this and for other keys before the window ends, all with one positive limit for the key: as many
-- calls for the key are admitted as are made, up to the limit.
pub admitted-min :
    (key : Text) (limit clock : ℕ) (calls : List Call) (m : Buckets)
    → Dict.Unique m
    → open_at clock (Dict.get key m) ≡ none
    → 1 ≤ limit
    → All (λ c. (c.clock < clock + window_ms) × (c.key ≡ key → c.limit ≡ limit)) calls
    → admitted key (record { key = key; limit = limit; clock = clock } ∷ calls) m
      ≡ min (1 + calls_for key calls) limit
unfolding admitted
admitted-min key limit clock calls m u opens positive h =
    let b : Bucket = record { count = 1; reset_at = clock + window_ms } in
    rw (text_eq_self key, new_window key limit clock m u opens)
      (omega (
        arith,
        counted key limit b calls (Dict.insert key b (sweep clock m))
            (get-insert_self key b (sweep clock m)) h,
      ))

waited :
    (key : Text) (limit clock later : ℕ) (b : Bucket) (m : Buckets)
    → Dict.Unique m
    → Dict.get key m ≡ some b
    → b.reset_at ≤ clock + window_ms
    → clock < b.reset_at
    → clock + 1000 * wait_seconds clock b.reset_at ≤ later
    → (wait_seconds clock b.reset_at ≤ 60) × ((rate_hit key limit later (sweep clock m)).1 ≡ 0)
unfolding wait_seconds
waited key limit clock later b m u e h open_yet waits = (
  omega arith,
  rw
      (new_window key limit later (sweep clock m) (sweep-Unique clock m u)
        (rw (sweep-get key b clock m e open_yet) (ground arith)))
      refl,
)

-- A refused call that comes again after the seconds it was told is admitted, when nothing else
-- touched the limiter, its map has no key twice and the key's window is no longer than a window
-- lasts; and the seconds are at most a minute.
pub rate_hit-retry :
    (key : Text) (limit clock later wait : ℕ) (b : Bucket) (m after : Buckets)
    → Dict.Unique m
    → Dict.get key m ≡ some b
    → b.reset_at ≤ clock + window_ms
    → rate_hit key limit clock m ≡ (after, wait)
    → 0 < wait
    → clock + 1000 * wait ≤ later
    → (wait ≤ 60) × ((rate_hit key limit later after).1 ≡ 0)
rate_hit-retry key limit clock later wait b m after u e h result refused waits =
    elim (Bool-cases (leb b.reset_at clock)) [
      | inl expired ↦
          let free = sym result ∙ new_window key limit clock m u (rw e (ground arith)) in
          absurd (omega (arith, ap (λ z. z.1) free))
      | inr open_yet ↦
          let known = sym result ∙ open_window key limit clock b m e (ground arith) in
          elim (Bool-cases (ltb b.count limit)) [
            | inl room ↦ absurd (omega (arith, ap (λ z. z.1) (rw room at known)))
            | inr full ↦
                let same = rw full at known in
                rw (ap (λ z. z.0) same, ap (λ z. z.1) same)
                  (waited key limit clock later b m u e h (ground arith)
                    (omega (arith, ap (λ z. z.1) same)))
          ]
    ]

different_keys : (ip actor : Text) → text_eq (ip_key ip) (account_key actor) ≡ false
unfolding text_eq
different_keys ip actor = refl

not_charged :
    (limits : Limits) (actor ip : Text) (clock : ℕ) (m : Buckets)
    → Dict.Unique m
    → open_at clock
        (Dict.get (account_key actor) (rate_hit (ip_key ip) limits.deploy_per_ip clock m).0)
      ≡ open_at clock (Dict.get (account_key actor) m)
unfolding rate_hit
not_charged limits actor ip clock m u =
    ap (open_at clock) (
      other_key (account_key actor)
        (record { key = ip_key ip; limit = limits.deploy_per_ip; clock = clock }) (sweep clock m)
        (Dict.get (ip_key ip) (sweep clock m)) (different_keys ip actor))
    ∙ sweep-open (account_key actor) clock m u

no_ip_refusal :
    (P : Type 0) (charged after : Buckets) (wait2 wait : ℕ)
    → ◌≡◌ {A = Buckets × Option Refusal}
        (if ltb 0 wait2 then (charged, some (by_account wait2)) else (charged, none))
        (after, some (by_ip wait))
    → P
no_ip_refusal P charged after wait2 wait =
    if_ind {A = Buckets × Option Refusal} (λ z. z ≡ (after, some (by_ip wait)) → P) (ltb 0 wait2)
      (charged, some (by_account wait2)) (charged, none) (λ _ e. absurd (cc (ap (λ z. z.1) e)))
      (λ _ e. absurd (cc (ap (λ z. z.1) e)))

-- A deploy that is refused for its network is not counted for its account, in a map that has no
-- key twice.
pub guard_deploy-by_ip :
    (limits : Limits) (actor ip : Text) (clock wait : ℕ) (m after : Buckets)
    → Dict.Unique m
    → guard_deploy limits actor ip clock m ≡ (after, some (by_ip wait))
    → open_at clock (Dict.get (account_key actor) after)
      ≡ open_at clock (Dict.get (account_key actor) m)
unfolding guard_deploy
guard_deploy-by_ip limits actor ip clock wait m after u =
    if_ind {A = Buckets × Option Refusal}
      (λ z.
        z ≡ (after, some (by_ip wait))
        → open_at clock (Dict.get (account_key actor) after)
          ≡ open_at clock (Dict.get (account_key actor) m))
      (ltb 0 (rate_hit (ip_key ip) limits.deploy_per_ip clock m).1) _ _
      (λ _ e. rw (sym (ap (λ z. z.0) e)) (not_charged limits actor ip clock m u))
      (λ _. no_ip_refusal _ _ after _ wait)
