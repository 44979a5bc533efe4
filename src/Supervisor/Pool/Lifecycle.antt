-- ===== src/Supervisor/Pool/Lifecycle.antt =====
-- services/supervisor/src/run.ts: the pool's other methods, `touch`, `dispose`, `disposeAll`,
-- `evictIdle`, the synchronous part of `#reconcileTimed`, and `stats`.
use sproutboat.Base.{
  ℕ, ◌+◌, ◌-◌, Bool, true, false, none, some, List, [], ◌∷◌, leb, length, if◌then◌else◌, string_eq,
  nat_eq,
}
use sproutboat.Base.Dict
use sproutboat.Base.Dict.{Dict}
use sproutboat.Supervisor.Pool.State.{TimedSprout, SproutPool, Heap, modify, close_server, retire}
use sproutboat.Supervisor.Pool.Key.{Platform, runtime_key}
use sproutboat.Supervisor.Pool.Endpoint.{usable_server, touch_server}
use sproutboat.Supervisor.Pool.Timed.{cancel_timed_wake}
use Prim.Native.String.{String}
use text.Mathlib.Text.{◌==◌ as str_eq}

-- Keep an in-flight transfer from being reaped.
unfoldable pub touch : Platform → ℕ → TimedSprout → SproutPool → SproutPool
touch os clock t p = elim (usable_server (runtime_key os t) p) [
  | none ↦ p
  | some r ↦ touch_server clock r p
]

-- `timed.delete(key)` and its timer.
unfoldable pub forget_timed : String → SproutPool → SproutPool
forget_timed key p = cancel_timed_wake key (record p { timed = Dict.delete key p.timed })

-- The first loop of `dispose`, over a copy of the map's entries.
unfoldable pub dispose_servers : String → List (String × ℕ) → SproutPool → SproutPool
dispose_servers path [] p = p
dispose_servers path ((key, r) ∷ rest) p = dispose_servers path rest (elim (p.objects r) [
  | none ↦ p
  | some s ↦ if str_eq s.sprout_path path then retire key r (forget_timed key p) else p
])

-- Its second loop, over the timed deployments that no server stands for.
unfoldable pub dispose_timed :
    (String → String) → String → List (String × TimedSprout) → SproutPool → SproutPool
dispose_timed resolve_path path [] p = p
dispose_timed resolve_path path ((key, t) ∷ rest) p =
    dispose_timed resolve_path path rest
      (if str_eq (resolve_path t.sprout_path) path then forget_timed key p else p)

unfoldable pub dispose : Platform → String → SproutPool → SproutPool
dispose os sprout_path p =
    let path = os.resolve_path sprout_path in
    let q = dispose_servers path p.servers p in dispose_timed os.resolve_path path q.timed q

unfoldable pub cancel_all : List (String × ℕ) → SproutPool → SproutPool
cancel_all [] p = p
cancel_all ((key, delay) ∷ rest) p = cancel_all rest (cancel_timed_wake key p)

unfoldable pub close_all : List (String × ℕ) → Heap → Heap
close_all [] objects = objects
close_all ((key, r) ∷ rest) objects = close_all rest (modify r close_server objects)

unfoldable pub dispose_all : SproutPool → SproutPool
dispose_all p =
    let q = cancel_all p.timed_wakeups p in
    record q { timed = []; objects = close_all q.servers q.objects; servers = []; used_ports = [] }

-- Whether the reaper takes an entry of the map.
unfoldable pub is_idle : ℕ → String → ℕ → SproutPool → Bool
is_idle clock key r p =
    if Dict.has key p.timed
    then false
    else elim (p.objects r) [ none ↦ false | some s ↦ leb (p.idle_ms + s.last_used_at) clock ]

-- The loop of `evictIdle`, over a copy of the entries, with the number taken so far.
unfoldable pub evict_entries : ℕ → List (String × ℕ) → ℕ → SproutPool → SproutPool × ℕ
evict_entries clock [] evicted p = (p, evicted)
evict_entries clock ((key, r) ∷ rest) evicted p =
    let idle = is_idle clock key r p in
    evict_entries clock rest (if idle then evicted + 1 else evicted)
      (if idle then retire key r p else p)

unfoldable pub evict_idle : ℕ → SproutPool → SproutPool × ℕ
evict_idle clock p =
    let (q, evicted) = evict_entries clock p.servers 0 p in
    (record q { idle_evictions = q.idle_evictions + evicted }, evicted)

-- The route snapshot's timed deployments by their runtime key.
unfoldable pub keyed :
    Platform → List TimedSprout → Dict String TimedSprout → Dict String TimedSprout
keyed os [] next = next
keyed os (t ∷ rest) next = keyed os rest (Dict.insert (runtime_key os t) t next)

-- Drop what the snapshot no longer names.
unfoldable pub drop_timed :
    Dict String TimedSprout → List (String × TimedSprout) → SproutPool → SproutPool
drop_timed next [] p = p
drop_timed next ((key, t) ∷ rest) p = drop_timed next rest (
    if Dict.has key next
    then p
    else (let q = forget_timed key p in
        elim (Dict.get key q.servers) [ none ↦ q | some r ↦ retire key r q ]))

unfoldable pub set_timed : Dict String TimedSprout → SproutPool → SproutPool
set_timed [] p = p
set_timed ((key, t) ∷ rest) p = set_timed rest (record p { timed = Dict.insert key t p.timed })

unfoldable pub enable_dispatch : ℕ → SproutPool → SproutPool
unfolding modify
enable_dispatch r p = record p { objects = modify r (λ s. record s { dispatch = true }) p.objects }

unfoldable pub enable_all : Dict String TimedSprout → SproutPool → SproutPool
enable_all [] p = p
enable_all ((key, t) ∷ rest) p =
    enable_all rest (elim (Dict.get key p.servers) [ none ↦ p | some r ↦ enable_dispatch r p ])

-- `#reconcileTimed` up to its wakes; the keys to wake are those of `keyed`.
unfoldable pub reconcile : Platform → List TimedSprout → SproutPool → SproutPool
reconcile os sprouts p =
    let next = keyed os sprouts [] in enable_all next (set_timed next (drop_timed next p.timed p))

unfoldable pub count_live : List (String × TimedSprout) → SproutPool → ℕ
count_live [] p = 0
count_live ((key, t) ∷ rest) p = (if Dict.has key p.servers then 1 else 0) + count_live rest p

pub record PoolStats : Type 0 where
  pub live : ℕ
  pub ports_in_use : ℕ
  pub port_pool_size : ℕ
  pub timed_configured : ℕ
  pub timed_live : ℕ

-- The figures that `stats` computes; the others are the pool's counters as they stand.
unfoldable pub stats : SproutPool → PoolStats
stats p = record {
  live = length p.servers;
  ports_in_use = length p.used_ports;
  port_pool_size = p.port_hi + 1 - p.port_lo;
  timed_configured = length p.timed;
  timed_live = count_live p.timed p;
}
