-- ===== src/Supervisor/Pool/Valid/Calls.antt =====
-- services/supervisor/src/run.ts: the invariant through `endpoint`'s parts and the exit handler.
use sproutboat.Base.{
  ℕ, ◌+◌, ◌≡◌, ◌≢◌, ◌⊎◌, refl, sym, Bool, true, false, none, some, inl, inr, nat_eq, string_eq,
  arith, Option-cases, if_ind,
}
use sproutboat.Base.Dict
use sproutboat.Base.Dict.{get-insert}
use sproutboat.Base.Bag
use sproutboat.Base.Bag.{has-add}
use sproutboat.Supervisor.Pool.State.{TimedSprout, SproutServer, SproutPool, retire, new_pool}
use sproutboat.Supervisor.Pool.Key.{runtime_key}
use sproutboat.Supervisor.Pool.Ports.{free_port}
use sproutboat.Supervisor.Pool.Ports.Laws.{free_port-Takes}
use sproutboat.Supervisor.Pool.Endpoint.{
  Host, Begun, awaits, spawn_threw, new_server, spawn_on, usable_server, touch_server, note_start,
  take_port, admit_server, start_server, begin_endpoint, record_startup, ready_failed,
}
use sproutboat.Supervisor.Pool.Timed.{schedule_timed_wake, forget_dead, child_exited}
use sproutboat.Supervisor.Pool.Valid.{IsOpen, Valid, modify-IsValid}
use sproutboat.Supervisor.Pool.Valid.Moves.{retire-Valid, retire-gone-Valid, admit_server-Valid}
use mathlib.Core.Path.{subst}
use Prim.Native.String.{String}

pub new_pool-Valid : (idle lo hi : ℕ) → Valid (new_pool idle lo hi)
unfolding new_pool Dict.get
new_pool-Valid idle lo hi = record {
  held = λ r s o. cc (o.0);
  apart = λ r x s t o u e. cc (o.0);
  listed = λ k r h. absurd (cc h);
  known = λ r s o. cc (o.0);
  fresh = λ r h. refl;
  unique = tt;
}

pub touch_server-Valid : (clock r : ℕ) (p : SproutPool) → Valid p → Valid (touch_server clock r p)
unfolding touch_server
touch_server-Valid clock r p v =
    modify-IsValid r (λ s. record s { last_used_at = clock }) p.objects (λ s. (refl, refl, refl))
      p.next p.servers p.used_ports v

pub record_startup-Valid :
    (r startup boot : ℕ) (p : SproutPool) → Valid p → Valid (record_startup r startup boot p)
unfolding record_startup
record_startup-Valid r startup boot p v =
    modify-IsValid r (λ s. record s { startup_ms = startup; boot_ms = boot }) p.objects
      (λ s. (refl, refl, refl)) p.next p.servers p.used_ports v

-- In a valid pool a key has no usable server only if nothing stands under it.
usable_server-none :
    (key : String) (p : SproutPool)
    → Valid p
    → usable_server key p ≡ none
    → Dict.get key p.servers ≡ none
unfolding usable_server
usable_server-none key p v h = elim (Option-cases (Dict.get key p.servers)) [
  | inl e ↦ e
  | inr (r, e) ↦ let (s, at, open_s, _) = v.listed key r e in ground arith
]

-- More ports in use is as good.
take_port-Valid : (port : ℕ) (p : SproutPool) → Valid p → Valid (take_port port p)
unfolding take_port
take_port-Valid port p v = record {
  held = λ r s o. rw (has-add port s.port p.used_ports) (ground (arith, v.held r s o));
  apart = v.apart;
  listed = v.listed;
  known = v.known;
  fresh = v.fresh;
  unique = v.unique;
}

note_start-Valid : (key : String) (p : SproutPool) → Valid p → Valid (note_start key p)
unfolding note_start
note_start-Valid key p v = v

note_start-get :
    (key : String) (p : SproutPool)
    → Dict.get key p.servers ≡ none
    → Dict.get key (note_start key p).servers ≡ none
unfolding note_start
note_start-get key p h = h

pub take_port-has : (port : ℕ) (p : SproutPool) → Bag.has port (take_port port p).used_ports ≡ true
unfolding take_port
take_port-has port p = ground (arith, has-add port port p.used_ports)

module _ (h : Host) (t : TimedSprout) (disabled : Bool) where
  spawn_on-Valid :
      (key : String) (port : ℕ) (p : SproutPool)
      → Valid p
      → Dict.get key p.servers ≡ none
      → Bag.has port p.used_ports ≡ false
      → Valid (spawn_on h t disabled key port p).0
  unfolding spawn_on
  spawn_on-Valid key port p v free_key unused =
      let q = take_port port p in
      let s = new_server h t disabled key port in
      if_ind {A = SproutPool × Begun} (λ z. Valid z.0) h.spawns_ok
        (admit_server s q, awaits q.next true) (q, spawn_threw)
        (λ _.
          admit_server-Valid s q (take_port-Valid port p v) free_key (take_port-has port p)
            (λ x u o e. cc (v.held x u o, unused, e)) refl)
        (λ _. take_port-Valid port p v)

  start_server-Valid :
      (key : String) (p : SproutPool)
      → Valid p
      → Dict.get key p.servers ≡ none
      → Valid (start_server h t disabled key p).0
  unfolding start_server
  start_server-Valid key p v free_key =
      let q = note_start key p in
      let broker = h.has_bindings t.sprout_path in
      elim (Option-cases (free_port h.bindable broker q h.start)) [
        | inl e ↦ rw (e, start_server) (note_start-Valid key p v)
        | inr (port, e) ↦
            rw (e, start_server)
              (spawn_on-Valid key port q (note_start-Valid key p v) (note_start-get key p free_key)
                (free_port-Takes h.bindable broker q h.start port e).0)
      ]

  pub begin_endpoint-Valid : (p : SproutPool) → Valid p → Valid (begin_endpoint h t disabled p).0
  unfolding begin_endpoint
  begin_endpoint-Valid p v = elim (Option-cases (usable_server (runtime_key h.platform t) p)) [
    | inl e ↦
        rw (e, begin_endpoint)
          (start_server-Valid (runtime_key h.platform t) p v
            (usable_server-none (runtime_key h.platform t) p v e))
    | inr (r, e) ↦ rw (e, begin_endpoint) (touch_server-Valid h.clock r p v)
  ]

-- Neither the key nor the port of a server that is waited for went to another server.
abbrev pub IsUnclaimed : ℕ → SproutServer → SproutPool → Type 0
IsUnclaimed r s p =
    (Dict.get s.key p.servers ≡ some r)
    ⊎ ((Dict.get s.key p.servers ≡ none)
        × ((x : ℕ) (t : SproutServer) → IsOpen p.objects x t → t.port ≢ s.port))

-- A wait that fails while another server has neither the key nor the port.
pub ready_failed-Valid :
    (r : ℕ) (s : SproutServer) (p : SproutPool)
    → Valid p
    → p.objects r ≡ some s
    → IsUnclaimed r s p
    → Valid (ready_failed s.key r p)
unfolding ready_failed
ready_failed-Valid r s p v at (inl h) =
    retire-Valid s.key r (record p { ready_failures = p.ready_failures + 1 }) v h
ready_failed-Valid r s p v at (inr (gone, unshared)) =
    retire-gone-Valid r s (record p { ready_failures = p.ready_failures + 1 }) v at gone unshared

pub schedule-Valid : (key : String) (p : SproutPool) → Valid p → Valid (schedule_timed_wake key p)
unfolding schedule_timed_wake
schedule-Valid key p v = if_ind Valid _ p _ (λ _. v) (λ _. v)

-- The exit of an open server is its retirement.
forget_dead-eq-retire :
    (r : ℕ) (s : SproutServer) (p : SproutPool)
    → p.objects r ≡ some s
    → Dict.get s.key p.servers ≡ some r
    → forget_dead r s p ≡ retire s.key r p
unfolding forget_dead retire
forget_dead-eq-retire r s p at h = ground arith

forget_dead-Valid :
    (r : ℕ) (s : SproutServer) (p : SproutPool)
    → Valid p
    → IsOpen p.objects r s
    → Valid (forget_dead r s p)
forget_dead-Valid r s p v o =
    let at_key = v.known r s o in
    subst Valid (sym (forget_dead-eq-retire r s p o.0 at_key)) (retire-Valid s.key r p v at_key)

-- Whenever a process exits, the pool stays valid.
pub child_exited-Valid : (r : ℕ) (p : SproutPool) → Valid p → Valid (child_exited r p)
unfolding child_exited
child_exited-Valid r p v = elim (Option-cases (p.objects r)) [
  | inl e ↦ rw (e, child_exited) v
  | inr (s, e) ↦
      rw (e, child_exited)
        (if_ind Valid s.closed p _ (λ _. v)
          (λ open_s.
            let dead = forget_dead-Valid r s p v (e, open_s) in
            if_ind Valid (Dict.has s.key (forget_dead r s p).timed) _ _
              (λ _. schedule-Valid s.key (forget_dead r s p) dead) (λ _. dead)))
]
