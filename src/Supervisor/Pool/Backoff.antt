-- ===== src/Supervisor/Pool/Backoff.antt =====
-- services/supervisor/src/run.ts, `#scheduleTimedWake` and its callers: when a wake timer is armed,
-- and for how long.
use sproutboat.Base.{
  ℕ, suc, zero, ◌+◌, ◌-◌, ◌*◌, ◌^◌, ◌≤◌, ◌≡◌, ◌∙◌, ap, none, some, arith, string_eq, min,
}
use sproutboat.Base.Dict
use sproutboat.Base.Dict.{
  Dict, get-insert, get-delete, get-has-false, get-insert_self, get-delete_self,
}
use sproutboat.Supervisor.Pool.State.{SproutPool, TimedSprout}
use sproutboat.Supervisor.Pool.Timed.{
  wake_delay, attempts_of, schedule_timed_wake, wake_failed, timer_fired, begin_wake,
  clear_timed_wake_timer,
}
use Prim.Native.String.{String}
use native.Mathlib.Decide.{dec_lt}
use native.Mathlib.Nat.{pow-suc, add-zero}

-- The exponent of the delay is at most seven, so all delays are in a table.
delay_table : (e : ℕ) → e ≤ 7 → (250 ≤ 250 * 2 ^ e) × (250 * 2 ^ e ≤ 32000)
delay_table zero h = omega arith
delay_table (suc zero) h = omega arith
delay_table (suc (suc zero)) h = omega arith
delay_table (suc (suc (suc zero))) h = omega arith
delay_table (suc (suc (suc (suc zero)))) h = omega arith
delay_table (suc (suc (suc (suc (suc zero))))) h = omega arith
delay_table (suc (suc (suc (suc (suc (suc zero)))))) h = omega arith
delay_table (suc (suc (suc (suc (suc (suc (suc zero))))))) h = omega arith
delay_table (suc (suc (suc (suc (suc (suc (suc (suc e)))))))) h = absurd (omega arith)

-- A wake waits a quarter of a second at least and half a minute at most.
pub wake_delay_bounds : (n : ℕ) → (250 ≤ wake_delay n) × (wake_delay n ≤ 30000)
unfolding wake_delay
wake_delay_bounds n = omega (arith, delay_table (min (n - 1) 7) (omega arith))

double_table : (e : ℕ) → e ≤ 6 → 250 * 2 ^ suc e ≡ 2 * (250 * 2 ^ e)
double_table e h = rw (pow-suc 2 e) (omega arith)

-- Each failure doubles the wait, until the cap.
pub wake_delay_steps : (n : ℕ) → wake_delay (n + 2) ≡ min 30000 (2 * wake_delay (n + 1))
unfolding wake_delay
wake_delay_steps n = elim (dec_lt 6 n) [
  | yes late ↦
      let a : min (n + 2 - 1) 7 ≡ 7 = omega arith in
      let b : min (n + 1 - 1) 7 ≡ 7 = omega arith in rw (a, b)
  | no early ↦
      let a : min (n + 2 - 1) 7 ≡ suc n = omega arith in
      let b : min (n + 1 - 1) 7 ≡ n = omega arith in
      rw (a, b) (omega (arith, double_table n (omega arith)))
]

-- The armed timer of a key fires, its wake begins, and the start fails.
abbrev pub failing_cycle : String → SproutPool → SproutPool
failing_cycle key p = wake_failed key (begin_wake key (timer_fired key p)).0

abbrev pub failing_cycles : ℕ → String → SproutPool → SproutPool
failing_cycles zero key p = p
failing_cycles (suc n) key p = failing_cycle key (failing_cycles n key p)

-- The timer of a timed key is not armed: it gets armed, one attempt later.
schedule_lem :
    (key : String) (p : SproutPool) (t : TimedSprout)
    → Dict.get key p.timed ≡ some t
    → Dict.get key p.timed_wakeups ≡ none
    → (Dict.get key (schedule_timed_wake key p).timed ≡ some t)
      × (attempts_of key (schedule_timed_wake key p) ≡ attempts_of key p + 1)
      × (Dict.get key (schedule_timed_wake key p).timed_wakeups
          ≡ some (wake_delay (attempts_of key p + 1)))
unfolding schedule_timed_wake attempts_of Dict.has
schedule_lem key p t h unarmed =
    let n = attempts_of key p + 1 in
    ground (
      arith,
      get-insert_self key n p.timed_wake_attempts,
      get-insert_self key (wake_delay n) p.timed_wakeups,
    )

-- One such cycle of a timed key arms its timer again, one attempt later.
failing_cycle_lem :
    (key : String) (p : SproutPool) (t : TimedSprout)
    → Dict.get key p.timed ≡ some t
    → (Dict.get key (failing_cycle key p).timed ≡ some t)
      × (attempts_of key (failing_cycle key p) ≡ attempts_of key p + 1)
      × (Dict.get key (failing_cycle key p).timed_wakeups
          ≡ some (wake_delay (attempts_of key p + 1)))
unfolding wake_failed begin_wake timer_fired clear_timed_wake_timer attempts_of Dict.has
failing_cycle_lem key p t h =
    let q : SproutPool = record p {
      timed_wakeups = Dict.delete key (Dict.delete key p.timed_wakeups);
      timed_wake_failures = p.timed_wake_failures + 1;
    } in
    rw (h, begin_wake)
      (rw (h, Dict.has)
        (schedule_lem key q t h (get-delete_self key (Dict.delete key p.timed_wakeups))))

-- The wake of a timed key fails again and again: after `n + 1` failures in a row the key is still
-- timed, its attempts went up by `n + 1`, and its timer waits as long as that attempt asks.
pub failing_cycles_lem :
    (n : ℕ) (key : String) (p : SproutPool) (t : TimedSprout)
    → Dict.get key p.timed ≡ some t
    → (Dict.get key (failing_cycles (suc n) key p).timed ≡ some t)
      × (attempts_of key (failing_cycles (suc n) key p) ≡ attempts_of key p + n + 1)
      × (Dict.get key (failing_cycles (suc n) key p).timed_wakeups
          ≡ some (wake_delay (attempts_of key p + n + 1)))
failing_cycles_lem zero key p t h =
    let (a, b, c) = failing_cycle_lem key p t h in (a, omega arith, rw (add-zero) c)
failing_cycles_lem (suc n) key p t h =
    let (timed, attempts, _) = failing_cycles_lem n key p t h in
    let (a, b, c) = failing_cycle_lem key (failing_cycles (suc n) key p) t timed in
    (a, omega arith, c ∙ ap (λ m. some (wake_delay m)) (omega arith))
