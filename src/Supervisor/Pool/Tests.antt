-- ===== src/Supervisor/Pool/Tests.antt =====
-- services/supervisor/src/run.ts: runs of the pool, and its theorems at inputs.
use sproutboat.Base.{
  ℕ, ◌+◌, ◌≤◌, ◌<◌, ◌≡◌, ◌≢◌, ◌↔◌, ◌⊎◌, refl, Bool, true, false, none, some, [], ◌∷◌, arith,
  string_eq, nat_eq, inr,
}
use sproutboat.Base.Dict
use sproutboat.Base.Bag
use sproutboat.Supervisor.Pool.State.{
  TimedSprout, SproutServer, SproutPool, new_pool, modify, place, close_server, port_of,
  release_port, retire,
}
use sproutboat.Supervisor.Pool.Key.{Platform, runtime_key}
use sproutboat.Supervisor.Pool.Ports.{port_usable, free_port_from, free_port}
use sproutboat.Supervisor.Pool.Ports.Laws.{free_port-Takes, free_port-none}
use sproutboat.Supervisor.Pool.Endpoint.{
  Host, awaits, spawn_threw, usable_server, touch_server, note_start, take_port, admit_server,
  new_server, spawn_on, start_server, begin_endpoint, ready_failed,
}
use sproutboat.Supervisor.Pool.Timed.{schedule_timed_wake, stands_at, forget_dead, child_exited}
use sproutboat.Supervisor.Pool.Lifecycle.{evict_idle}
use sproutboat.Supervisor.Pool.Valid.{IsOpen, Valid}
use sproutboat.Supervisor.Pool.Reach.{Reach, here, next, called, exited, failed, Reach-Valid}
use sproutboat.Supervisor.Pool.Race.{stale_failure-orphans, spawn_threw-keeps_port}
use sproutboat.Supervisor.Pool.Reaping.{evict_idle_iff}
use Prim.Native.String.{String}

machine : Unit {0}
unfolding new_pool modify place close_server port_of release_port retire runtime_key port_usable
    free_port_from free_port usable_server touch_server note_start take_port admit_server new_server
    spawn_on start_server begin_endpoint schedule_timed_wake stands_at forget_dead child_exited
    Dict.get Dict.has Dict.insert Dict.delete Bag.has Bag.add Bag.delete
machine = tt

abbrev os : Platform
os = record { resolve_path = λ s. s; locale_lt = λ a b. false; unit_lt = λ a b. false }

abbrev host : ℕ → Bool → Host
host start ok = record {
  platform = os;
  bindable = λ port. true;
  has_bindings = λ path. false;
  start = start;
  spawns_ok = ok;
  clock = 1000;
}

abbrev site : TimedSprout
site = record { sprout_path = "/a/sprout"; secrets_path = none; services = none; r2 = none }

abbrev site_key : String
site_key = runtime_key os site

abbrev empty : SproutPool
empty = new_pool 600000 40000 40002

-- The site is started on port 40001, its process exits, and it is started again on 40002.
abbrev once : SproutPool
once = (begin_endpoint (host 1 true) site false empty).0

abbrev twice : SproutPool
twice = (begin_endpoint (host 2 true) site false (child_exited 0 once)).0

runs :
    ((begin_endpoint (host 1 true) site false empty).1 ≡ awaits 0 true)
    × (once.used_ports ≡ 40001 ∷ [])
    × ((child_exited 0 once).used_ports ≡ [])
    × (twice.used_ports ≡ 40002 ∷ [])
    × (twice.restarts ≡ 1)
    × (Dict.get site_key twice.servers ≡ some 1)
unfolding machine
runs = (refl, refl, refl, refl, refl, refl)

abbrev twice-Reach : Reach empty twice
twice-Reach =
    next (next (next here (called (host 1 true) site false)) (exited 0))
      (called (host 2 true) site false)

abbrev first : SproutServer
first = new_server (host 1 true) site false site_key 40001

-- The wait of the first server fails when its process has exited.
abbrev after_crash : SproutPool
after_crash = ready_failed site_key 0 (child_exited 0 once)

crashed_at : (child_exited 0 once).objects 0 ≡ some (record first { closed = true })
unfolding machine
crashed_at = refl

crash_frees : Dict.get site_key (child_exited 0 once).servers ≡ none
unfolding machine
crash_frees = refl

none_runs : (x : ℕ) (t : SproutServer) → IsOpen (child_exited 0 once).objects x t → t.port ≢ 40001
unfolding machine
none_runs x t (at, live) e = ground (arith, at, live)

Reach-Valid_example : Valid after_crash
unfolding new_server runtime_key
Reach-Valid_example =
    Reach-Valid 600000 40000 40002 {p = after_crash}
      (next (next (next here (called (host 1 true) site false)) (exited 0))
        (failed 0 (record first { closed = true }) crashed_at))
      (((tt, tt), tt), inr (crash_frees, none_runs))

abbrev second : SproutServer
second = new_server (host 2 true) site false site_key 40002

second_at : twice.objects 1 ≡ some second
unfolding machine
second_at = refl

stale_failure-orphans_example :
    IsOpen (ready_failed site_key 0 twice).objects 1 second
    × ((k : String) → Dict.get k (ready_failed site_key 0 twice).servers ≢ some 1)
stale_failure-orphans_example =
    stale_failure-orphans site_key 0 1 second twice
      (Reach-Valid 600000 40000 40002 {p = twice} twice-Reach (((tt, tt), tt), tt)) runs.5 second_at
      (omega arith)

empty-Valid : Valid empty
empty-Valid = Reach-Valid 600000 40000 40002 {p = empty} here tt

unusable : usable_server site_key empty ≡ none
unfolding machine
unusable = refl

found :
    free_port
      (host 1 false).bindable
      ((host 1 false).has_bindings site.sprout_path)
      (note_start site_key empty)
      1
    ≡ some 40001
unfolding machine
found = refl

spawn_threw-keeps_port_example :
    ((begin_endpoint (host 1 false) site false empty).1 ≡ spawn_threw)
    × (Bag.has 40001 (begin_endpoint (host 1 false) site false empty).0.used_ports ≡ true)
    × ((r : ℕ) (s : SproutServer)
        → IsOpen (begin_endpoint (host 1 false) site false empty).0.objects r s
        → s.port ≢ 40001)
spawn_threw-keeps_port_example =
    spawn_threw-keeps_port (host 1 false) site false 40001 empty unusable refl found empty-Valid

once-Valid : Valid once
once-Valid =
    Reach-Valid 600000 40000 40002 {p = once} (next here (called (host 1 true) site false)) (tt, tt)

evict_idle_iff_example : (Dict.get site_key (evict_idle 700000 once).0.servers ≡ some 0) ↔ (
    (s : SproutServer) × (Dict.get site_key once.servers ≡ some 0)
    × (once.objects 0 ≡ some s)
    × ((Dict.has site_key once.timed ≡ true) ⊎ (700000 < once.idle_ms + s.last_used_at)))
evict_idle_iff_example = evict_idle_iff 700000 site_key 0 once once-Valid

free_found : free_port (λ port. true) false empty 1 ≡ some 40001
unfolding machine
free_found = refl

nothing_found : free_port (λ port. false) false empty 1 ≡ none
unfolding machine
nothing_found = refl

free_port-Takes_example :
    (Bag.has 40001 empty.used_ports ≡ false)
    × (port_usable (λ port. true) false 40001 ≡ true)
    × (40000 ≤ 40001)
    × (40001 ≤ 40002)
unfolding new_pool
free_port-Takes_example = free_port-Takes (λ port. true) false empty 1 40001 free_found

free_port-none_example :
    (Bag.has 40002 empty.used_ports ≡ true) ⊎ (port_usable (λ port. false) false 40002 ≡ false)
unfolding new_pool
free_port-none_example =
    free_port-none (λ port. false) false empty 1 40002 (omega arith) nothing_found (omega arith)
      (omega arith)

abbrev with_timed : SproutPool
with_timed = record empty { timed = (site_key, site) ∷ [] }

timed_at : Dict.get site_key with_timed.timed ≡ some site
unfolding machine
timed_at = refl
