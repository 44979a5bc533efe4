-- ===== src/Supervisor/Pool/Timed.antt =====
-- services/supervisor/src/run.ts: the pool's broker-driven deployments, their wake timers, and the
-- exit handler of a server, which re-arms them.
use sproutboat.Base.{
  ℕ, ◌+◌, ◌-◌, ◌*◌, ◌^◌, Bool, false, ◌||◌, not, Option, none, some, min, if◌then◌else◌, string_eq,
  nat_eq,
}
use sproutboat.Base.Dict
use sproutboat.Base.Dict.{Dict}
use sproutboat.Base.Bag
use sproutboat.Supervisor.Pool.State.{TimedSprout, SproutServer, SproutPool, modify, close_server}
use Prim.Native.String.{String}

unfoldable pub clear_timed_wake_timer : String → SproutPool → SproutPool
clear_timed_wake_timer key p = record p { timed_wakeups = Dict.delete key p.timed_wakeups }

unfoldable pub cancel_timed_wake : String → SproutPool → SproutPool
unfolding clear_timed_wake_timer
cancel_timed_wake key p =
    let q = clear_timed_wake_timer key p in
    record q { timed_wake_attempts = Dict.delete key q.timed_wake_attempts }

unfoldable pub attempts_of : String → SproutPool → ℕ
attempts_of key p = elim (Dict.get key p.timed_wake_attempts) [ none ↦ 0 | some n ↦ n ]

-- Milliseconds before the wake that follows the given attempt.
unfoldable pub wake_delay : ℕ → ℕ
wake_delay attempt = min 30000 (250 * 2 ^ min (attempt - 1) 7)

unfoldable pub schedule_timed_wake : String → SproutPool → SproutPool
unfolding attempts_of
schedule_timed_wake key p =
    if Dict.has key p.timed_wakeups || not (Dict.has key p.timed)
    then p
    else (let attempt = attempts_of key p + 1 in
        record p {
          timed_wake_attempts = Dict.insert key attempt p.timed_wake_attempts;
          timed_wakeups = Dict.insert key (wake_delay attempt) p.timed_wakeups;
        })

-- The armed timer fires: it forgets itself, and wakes.
unfoldable pub timer_fired : String → SproutPool → SproutPool
timer_fired key p = record p { timed_wakeups = Dict.delete key p.timed_wakeups }

-- `#wakeTimed` up to its call of `endpoint`: the deployment to start, if it is still timed.
unfoldable pub begin_wake : String → SproutPool → SproutPool × Option TimedSprout
begin_wake key p = elim (Dict.get key p.timed) [
  | none ↦ (p, none)
  | some t ↦ (clear_timed_wake_timer key p, some t)
]

unfoldable pub wake_succeeded : String → SproutPool → SproutPool
wake_succeeded key p = record p { timed_wake_attempts = Dict.delete key p.timed_wake_attempts }

unfoldable pub wake_failed : String → SproutPool → SproutPool
wake_failed key p =
    let q : SproutPool = record p { timed_wake_failures = p.timed_wake_failures + 1 } in
    if Dict.has key q.timed then schedule_timed_wake key q else q

-- `this.#servers.get(key) === dead`
unfoldable pub stands_at : String → ℕ → SproutPool → Bool
stands_at key r p = elim (Dict.get key p.servers) [ none ↦ false | some x ↦ nat_eq.beq x r ]

-- The constructor's `onExit`, for an object that was not closed before.
unfoldable pub forget_dead : ℕ → SproutServer → SproutPool → SproutPool
unfolding modify close_server stands_at
forget_dead r s p = record p {
  objects = modify r close_server p.objects;
  servers = if stands_at s.key r p then Dict.delete s.key p.servers else p.servers;
  used_ports = Bag.delete s.port p.used_ports;
}

-- The process of a server exits. A closed server's exit says nothing.
unfoldable pub child_exited : ℕ → SproutPool → SproutPool
unfolding forget_dead
child_exited r p = elim (p.objects r) [
  | none ↦ p
  | some s ↦
      if s.closed
      then p
      else (let q = forget_dead r s p in
          if Dict.has s.key q.timed then schedule_timed_wake s.key q else q)
]
