-- ===== src/Supervisor/Pool/Race.antt =====
-- services/supervisor/src/run.ts: a wait that fails after its server was replaced, and a spawn
-- that throws.
use sproutboat.Base.{
  ℕ, ◌≡◌, ◌≢◌, refl, ◌∙◌, Bool, true, false, none, some, arith, string_eq, nat_eq, inl, inr,
  Bool-cases, ne_of_beq,
}
use sproutboat.Base.Dict
use sproutboat.Base.Dict.{get-delete, get-delete_self}
use sproutboat.Base.Bag
use sproutboat.Base.Bag.{has-add}
use sproutboat.Supervisor.Pool.State.{TimedSprout, SproutServer, SproutPool, retire}
use sproutboat.Supervisor.Pool.Key.{runtime_key}
use sproutboat.Supervisor.Pool.Ports.{free_port}
use sproutboat.Supervisor.Pool.Ports.Laws.{free_port-Takes}
use sproutboat.Supervisor.Pool.Endpoint.{
  Host, spawn_threw, usable_server, note_start, take_port, spawn_on, start_server, begin_endpoint,
  ready_failed,
}
use sproutboat.Supervisor.Pool.Valid.{IsOpen, Valid, modify_other}
use sproutboat.Supervisor.Pool.Valid.Calls.{take_port-has}
use Prim.Native.String.{String}

-- The wait of a server that was replaced fails, in a valid pool: the replacement keeps running,
-- and nothing in the pool's map refers to it any more.
pub stale_failure-orphans :
    (key : String) (stale r : ℕ) (s : SproutServer) (p : SproutPool)
    → Valid p
    → Dict.get key p.servers ≡ some r
    → p.objects r ≡ some s
    → stale ≢ r
    → IsOpen (ready_failed key stale p).objects r s
      × ((k : String) → Dict.get k (ready_failed key stale p).servers ≢ some r)
unfolding ready_failed retire
stale_failure-orphans key stale r s p v at_key at ne =
    let (t, at', open_t, t_key) = v.listed key r at_key in
    (
      (modify_other stale r _ p.objects ne ∙ at, ground arith),
      λ k h. elim (Bool-cases (string_eq.beq key k)) [
        | inl same ↦ cc (rw (get-delete key k p.servers, same) at h)
        | inr other ↦
            let (u, at_u, open_u, u_key) =
              v.listed k r (rw (get-delete key k p.servers, other) at h) in
            ne_of_beq {A = String} other (cc)
      ],
    )

module _ (h : Host) (t : TimedSprout) (disabled : Bool) (port : ℕ) (p : SproutPool)
    (unusable : usable_server (runtime_key h.platform t) p ≡ none) (throws : h.spawns_ok ≡ false)
    (found : free_port h.bindable
        (h.has_bindings t.sprout_path)
        (note_start (runtime_key h.platform t) p)
        h.start
      ≡ some port) where
  thrown_state :
      begin_endpoint h t disabled p
      ≡ (take_port port (note_start (runtime_key h.platform t) p), spawn_threw)
  unfolding begin_endpoint spawn_on start_server
  thrown_state = rw (unusable, begin_endpoint) (rw (found, start_server) (rw throws))

  taken :
      (r : ℕ) (s : SproutServer)
      → Valid p
      → IsOpen (take_port port (note_start (runtime_key h.platform t) p)).objects r s
      → s.port ≢ port
  unfolding take_port note_start
  taken r s v o e =
      let unused =
        (free_port-Takes h.bindable (h.has_bindings t.sprout_path)
          (note_start (runtime_key h.platform t) p) h.start port found).0 in
      cc (v.held r s o, unused, e)

  -- On a valid pool with no usable server for the key the spawn throws: the port that was found
  -- stays in use though no open server holds it.
  pub spawn_threw-keeps_port :
      Valid p
      → ((begin_endpoint h t disabled p).1 ≡ spawn_threw)
        × (Bag.has port (begin_endpoint h t disabled p).0.used_ports ≡ true)
        × ((r : ℕ) (s : SproutServer)
            → IsOpen (begin_endpoint h t disabled p).0.objects r s
            → s.port ≢ port)
  spawn_threw-keeps_port v = rw thrown_state (refl, take_port-has port _, λ r s o. taken r s v o)
