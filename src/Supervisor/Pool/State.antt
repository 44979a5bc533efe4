-- ===== src/Supervisor/Pool/State.antt =====
-- services/supervisor/src/run.ts: the state of `SproutPool` and `SproutServer`, and the moves on it
-- that several methods share.
use sproutboat.Base.{
  ℕ, Bool, true, Option, none, some, List, if◌then◌else◌, ◌==◌, nat_eq, string_eq,
}
use sproutboat.Base.Dict
use sproutboat.Base.Dict.{Dict}
use sproutboat.Base.Bag
use mathlib.Core.Option
use Prim.Native.String.{String}

-- Account context of a sprout's broker.
pub record R2Runtime : Type 0 where
  pub owner_id : String
  pub resource_ids : List String
  pub do_store_id : Option String

-- The four arguments that every pool method takes; also what a timed route retains.
pub record TimedSprout : Type 0 where
  pub sprout_path : String
  pub secrets_path : Option String
  pub services : Option (List (String × String))
  pub r2 : Option R2Runtime

-- One spawned process. `key` is what the constructor's `onExit` closure captured. `dispatch` says
-- whether its broker may run timers: started so, or enabled since.
pub record SproutServer : Type 0 where
  pub key : String
  pub sprout_path : String
  pub port : ℕ
  pub last_used_at : ℕ
  pub closed : Bool
  pub dispatch : Bool
  pub startup_ms : ℕ
  pub boot_ms : ℕ

pub record SproutPool : Type 0 where
  -- the heap of server objects; `next` is the first reference that was never handed out
  pub objects : ℕ → Option SproutServer
  pub next : ℕ
  pub servers : Dict String ℕ
  pub used_ports : List ℕ
  pub idle_ms : ℕ
  pub port_lo : ℕ
  pub port_hi : ℕ
  pub seen_keys : List String
  pub timed : Dict String TimedSprout
  -- the armed timers, each with its delay in milliseconds
  pub timed_wakeups : Dict String ℕ
  pub timed_wake_attempts : Dict String ℕ
  pub spawns : ℕ
  pub restarts : ℕ
  pub ready_failures : ℕ
  pub idle_evictions : ℕ
  pub timed_wake_failures : ℕ
  pub foreign_listeners : ℕ

-- The constructor, with its options.
unfoldable pub new_pool : ℕ → ℕ → ℕ → SproutPool
new_pool idle lo hi = record {
  objects = λ r. none;
  next = 0;
  servers = List.[];
  used_ports = List.[];
  idle_ms = idle;
  port_lo = lo;
  port_hi = hi;
  seen_keys = List.[];
  timed = List.[];
  timed_wakeups = List.[];
  timed_wake_attempts = List.[];
  spawns = 0;
  restarts = 0;
  ready_failures = 0;
  idle_evictions = 0;
  timed_wake_failures = 0;
  foreign_listeners = 0;
}

abbrev pub Heap : Type 0
Heap = ℕ → Option SproutServer

-- A write through one reference.
unfoldable pub modify : ℕ → (SproutServer → SproutServer) → Heap → Heap
modify r f objects x = if r == x then Option.map f (objects x) else objects x

-- A new object at reference `r`.
unfoldable pub place : ℕ → SproutServer → Heap → Heap
place r s objects x = if r == x then some s else objects x

-- `SproutServer.dispose`: closed from here on, and its process killed.
unfoldable pub close_server : SproutServer → SproutServer
close_server s = record s { closed = true }

unfoldable pub port_of : SproutPool → ℕ → Option ℕ
port_of p r = Option.map (λ s. s.port) (p.objects r)

unfoldable pub release_port : Option ℕ → List ℕ → List ℕ
release_port none used = used
release_port (some port) used = Bag.delete port used

-- `server.dispose(); servers.delete(key); usedPorts.delete(server.port)`, as four methods do it.
unfoldable pub retire : String → ℕ → SproutPool → SproutPool
unfolding modify close_server port_of release_port
retire key r p = record p {
  objects = modify r close_server p.objects;
  servers = Dict.delete key p.servers;
  used_ports = release_port (port_of p r) p.used_ports;
}
