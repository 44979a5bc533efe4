-- ===== src/Supervisor/Pool/Reach.antt =====
-- services/supervisor/src/run.ts: the pool as a state machine. A step is one stretch of code that
-- runs without waiting; calls interleave between their stretches in any order.
use sproutboat.Base.{ℕ, ◌≡◌, Bool, some, List, Option-cases, inl, inr, if_ind, string_eq}
use sproutboat.Base.Dict
use sproutboat.Supervisor.Pool.State.{TimedSprout, SproutServer, SproutPool, new_pool}
use sproutboat.Supervisor.Pool.Key.{Platform}
use sproutboat.Supervisor.Pool.Endpoint.{
  Host, Failure, begin_endpoint, record_startup, ready_failed, attempt_failed, foreign_listener,
  other_failure,
}
use sproutboat.Supervisor.Pool.Timed.{
  clear_timed_wake_timer, timer_fired, begin_wake, wake_succeeded, wake_failed, child_exited,
}
use sproutboat.Supervisor.Pool.Lifecycle.{touch, dispose, dispose_all, evict_idle, reconcile}
use sproutboat.Supervisor.Pool.Valid.{Valid}
use sproutboat.Supervisor.Pool.Valid.Calls.{
  new_pool-Valid, begin_endpoint-Valid, record_startup-Valid, ready_failed-Valid,
  child_exited-Valid, schedule-Valid, IsUnclaimed,
}
use sproutboat.Supervisor.Pool.Valid.Lifecycle.{
  touch-Valid, dispose-Valid, dispose_all-Valid, evict_idle-Valid, reconcile-Valid,
}
use Prim.Native.String.{String}

-- `failed` is the failure of the wait of any server, which a call makes under the server's key.
pub data Step (p : SproutPool) : SproutPool → Type 0 where
  called : (h : Host) (t : TimedSprout) (disabled : Bool) → Step p (begin_endpoint h t disabled p).0
  listening : (r startup boot : ℕ) → Step p (record_startup r startup boot p)
  failed : (r : ℕ) (s : SproutServer) → p.objects r ≡ some s → Step p (ready_failed s.key r p)
  threw : (failure : Failure) (attempt : ℕ) → Step p (attempt_failed failure attempt p).0
  exited : (r : ℕ) → Step p (child_exited r p)
  touched : (os : Platform) (clock : ℕ) (t : TimedSprout) → Step p (touch os clock t p)
  disposed : (os : Platform) (path : String) → Step p (dispose os path p)
  disposed_all : Step p (dispose_all p)
  evicted : (clock : ℕ) → Step p (evict_idle clock p).0
  reconciled : (os : Platform) (sprouts : List TimedSprout) → Step p (reconcile os sprouts p)
  fired : (key : String) → Step p (timer_fired key p)
  waking : (key : String) → Step p (begin_wake key p).0
  woke : (key : String) → Step p (wake_succeeded key p)
  not_woken : (key : String) → Step p (wake_failed key p)

pub data Reach (p : SproutPool) : SproutPool → Type 0 where
  here : Reach p p
  next : {q r : SproutPool} → Reach p q → Step q r → Reach p r

begin_wake-Valid : (key : String) (p : SproutPool) → Valid p → Valid (begin_wake key p).0
unfolding begin_wake clear_timed_wake_timer
begin_wake-Valid key p v = elim (Option-cases (Dict.get key p.timed)) [
  | inl e ↦ rw (e, begin_wake) v
  | inr (t, e) ↦ rw (e, begin_wake) v
]

wake_failed-Valid : (key : String) (p : SproutPool) → Valid p → Valid (wake_failed key p)
unfolding wake_failed
wake_failed-Valid key p v =
    if_ind Valid (Dict.has key p.timed) _ _ (λ _. schedule-Valid key _ v) (λ _. v)

attempt_failed-Valid :
    (failure : Failure) (n : ℕ) (p : SproutPool) → Valid p → Valid (attempt_failed failure n p).0
unfolding attempt_failed
attempt_failed-Valid foreign_listener n p v = v
attempt_failed-Valid other_failure n p v = v

timer_fired-Valid : (key : String) (p : SproutPool) → Valid p → Valid (timer_fired key p)
unfolding timer_fired
timer_fired-Valid key p v = v

wake_succeeded-Valid : (key : String) (p : SproutPool) → Valid p → Valid (wake_succeeded key p)
unfolding wake_succeeded
wake_succeeded-Valid key p v = v

-- A wait fails before its server's key or port went to another server.
abbrev pub IsTimely : {p q : SproutPool} → Step p q → Type 0
IsTimely {p} (failed r s at) = IsUnclaimed r s p
IsTimely _ = Unit

abbrev pub AllTimely : {p q : SproutPool} → Reach p q → Type 0
AllTimely here = Unit
AllTimely (next r st) = AllTimely r × IsTimely st

pub Step-Valid : {p q : SproutPool} (st : Step p q) → IsTimely st → Valid p → Valid q
Step-Valid {p} (called h t disabled) timely v = begin_endpoint-Valid h t disabled p v
Step-Valid {p} (listening r startup boot) timely v = record_startup-Valid r startup boot p v
Step-Valid {p} (failed r s at) timely v = ready_failed-Valid r s p v at timely
Step-Valid {p} (threw failure n) timely v = attempt_failed-Valid failure n p v
Step-Valid {p} (exited r) timely v = child_exited-Valid r p v
Step-Valid {p} (touched os clock t) timely v = touch-Valid os clock t p v
Step-Valid {p} (disposed os path) timely v = dispose-Valid os path p v
Step-Valid {p} disposed_all timely v = dispose_all-Valid p v
Step-Valid {p} (evicted clock) timely v = evict_idle-Valid clock p v
Step-Valid {p} (reconciled os sprouts) timely v = reconcile-Valid os sprouts p v
Step-Valid {p} (fired key) timely v = timer_fired-Valid key p v
Step-Valid {p} (waking key) timely v = begin_wake-Valid key p v
Step-Valid {p} (woke key) timely v = wake_succeeded-Valid key p v
Step-Valid {p} (not_woken key) timely v = wake_failed-Valid key p v

-- From a new pool, after any sequence of steps in which no wait fails after its server's key or
-- port went to another server: every open server holds a port that is in use and that no other
-- open server has; what stands under a key is an open server with that key; every open server
-- stands under its key.
pub Reach-Valid :
    (idle lo hi : ℕ) {p : SproutPool} (r : Reach (new_pool idle lo hi) p) → AllTimely r → Valid p
Reach-Valid idle lo hi here timely = new_pool-Valid idle lo hi
Reach-Valid idle lo hi (next r st) timely =
    Step-Valid st timely.1 (Reach-Valid idle lo hi r timely.0)
