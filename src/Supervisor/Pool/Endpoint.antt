-- ===== src/Supervisor/Pool/Endpoint.antt =====
-- services/supervisor/src/run.ts, `endpoint` and `#endpointOnce`, cut where they wait: the
-- synchronous part up to `await server.ready()`, then one of its two continuations, and the exit
-- handler that the child's process fires at any time.
use sproutboat.Base.{
  ℕ, ◌+◌, ◌-◌, Bool, true, false, not, Option, none, some, leb, if◌then◌else◌, string_eq, nat_eq,
}
use sproutboat.Base.Dict
use sproutboat.Base.Bag
use sproutboat.Supervisor.Pool.State.{TimedSprout, SproutServer, SproutPool, modify, place, retire}
use sproutboat.Supervisor.Pool.Ports.{free_port}
use sproutboat.Supervisor.Pool.Key.{Platform, runtime_key}
use Prim.Native.String.{String}

-- What the machine answers while one call runs.
pub record Host : Type 0 where
  pub platform : Platform
  -- `portBindable`, and whether `bindings.json` stands beside the sprout
  pub bindable : ℕ → Bool
  pub has_bindings : String → Bool
  -- the random start of the walk over the ports
  pub start : ℕ
  -- whether the spawn factory returns a child, or throws
  pub spawns_ok : Bool
  pub clock : ℕ

-- How far one call came before it had to wait.
pub data Begun : Type 0 where
  no_free_port : Begun
  spawn_threw : Begun
  -- it awaits the server, which this call spawned or found
  awaits : ℕ → Bool → Begun

-- `servers.get(key)` if it is there and not closed.
unfoldable pub usable_server : String → SproutPool → Option ℕ
usable_server key p = elim (Dict.get key p.servers) [
  | none ↦ none
  | some r ↦ elim (p.objects r) [ none ↦ none | some s ↦ if s.closed then none else some r ]
]

unfoldable pub touch_server : ℕ → ℕ → SproutPool → SproutPool
unfolding modify
touch_server clock r p = record p {
  objects = modify r (λ s. record s { last_used_at = clock }) p.objects;
}

unfoldable pub note_start : String → SproutPool → SproutPool
note_start key p = record p {
  restarts = if Bag.has key p.seen_keys then p.restarts + 1 else p.restarts;
  seen_keys = Bag.add key p.seen_keys;
}

-- The port is taken before the spawn, whatever becomes of the spawn.
unfoldable pub take_port : ℕ → SproutPool → SproutPool
take_port port p = record p { used_ports = Bag.add port p.used_ports; spawns = p.spawns + 1 }

-- `new SproutServer(…)` and `servers.set(key, server)`.
unfoldable pub admit_server : SproutServer → SproutPool → SproutPool
unfolding place
admit_server s p = record p {
  objects = place p.next s p.objects;
  next = p.next + 1;
  servers = Dict.insert s.key p.next p.servers;
}

module _ (h : Host) (t : TimedSprout) (dispatch_disabled : Bool) where
  unfoldable pub new_server : String → ℕ → SproutServer
  new_server key port = record {
    key = key;
    sprout_path = h.platform.resolve_path t.sprout_path;
    port = port;
    last_used_at = h.clock;
    closed = false;
    dispatch = not dispatch_disabled;
    startup_ms = 0;
    boot_ms = 0;
  }

  -- The port is found; the constructor spawns, and may throw.
  unfoldable pub spawn_on : String → ℕ → SproutPool → SproutPool × Begun
  unfolding take_port new_server
  spawn_on key port p =
      let q = take_port port p in
      if h.spawns_ok
      then (admit_server (new_server key port) q, awaits q.next true)
      else (q, spawn_threw)

  unfoldable pub start_server : String → SproutPool → SproutPool × Begun
  start_server key p =
      let q = note_start key p in
      elim (free_port h.bindable (h.has_bindings t.sprout_path) q h.start) [
        | none ↦ (q, no_free_port)
        | some port ↦ spawn_on key port q
      ]

  unfoldable pub begin_endpoint : SproutPool → SproutPool × Begun
  begin_endpoint p =
      let key = runtime_key h.platform t in
      elim (usable_server key p) [
        | none ↦ start_server key p
        | some r ↦ (touch_server h.clock r p, awaits r false)
      ]

-- What `endpoint()` resolves to.
pub record Endpoint : Type 0 where
  pub port : ℕ
  pub transfer_port : Option ℕ
  pub cold_start : Bool
  pub startup_ms : ℕ
  pub boot_ms : ℕ

-- The child listens: `#ready` resolves, after it has recorded the two durations.
unfoldable pub record_startup : ℕ → ℕ → ℕ → SproutPool → SproutPool
unfolding modify
record_startup r startup boot p = record p {
  objects = modify r (λ s. record s { startup_ms = startup; boot_ms = boot }) p.objects;
}

-- The result of a call whose server is ready.
unfoldable pub endpoint_of : (String → Bool) → Bool → SproutServer → Endpoint
endpoint_of has_bindings cold s = record {
  port = s.port;
  transfer_port = if has_bindings s.sprout_path then some (s.port - 10000) else none;
  cold_start = cold;
  startup_ms = if cold then s.startup_ms else 0;
  boot_ms = if cold then s.boot_ms else 0;
}

-- The `catch` of `await server.ready()`: whatever server now stands under the key is dropped.
unfoldable pub ready_failed : String → ℕ → SproutPool → SproutPool
unfolding retire
ready_failed key r p = retire key r (record p { ready_failures = p.ready_failures + 1 })

pub data Failure : Type 0 where
  foreign_listener : Failure
  other_failure : Failure

-- The `catch` in the loop of `endpoint`: whether attempt number `attempt` is followed by another.
unfoldable pub attempt_failed : Failure → ℕ → SproutPool → SproutPool × Bool
attempt_failed other_failure attempt p = (p, false)
attempt_failed foreign_listener attempt p =
    (record p { foreign_listeners = p.foreign_listeners + 1 }, not (leb 2 attempt))
