-- ===== src/Supervisor/Pool/Ports.antt =====
-- services/supervisor/src/run.ts, `SproutPool.#freePort`: one walk over the range from a random
-- start. What the operating system and the file system answer is an argument.
pub mod Laws
use sproutboat.Base.{
  ℕ, zero, suc, ◌+◌, ◌-◌, ◌%◌, Bool, ◌&&◌, ◌||◌, not, Option, none, some, ltb, leb, if◌then◌else◌,
  nat_eq,
}
use sproutboat.Base.Bag
use sproutboat.Supervisor.Pool.State.{SproutPool}

module _ (bindable : ℕ → Bool) (with_broker : Bool) where
  -- The probe of one port, and with a broker of the two that go with it.
  unfoldable pub port_usable : ℕ → Bool
  port_usable port =
      bindable port
      && (not with_broker
          || ltb 10000 port
            && leb (port + 10000) 65535
            && bindable (port + 10000)
            && bindable (port - 10000))

  -- `left` rounds remain, the next at offset `i`.
  unfoldable pub free_port_from : SproutPool → ℕ → ℕ → ℕ → Option ℕ
  free_port_from p start i zero = none
  free_port_from p start i (suc left) =
      let port = p.port_lo + (start + i) % (p.port_hi + 1 - p.port_lo) in
      let rest = free_port_from p start (i + 1) left in
      if Bag.has port p.used_ports then rest else if port_usable port then some port else rest

  -- `none` is the error "no free sprout port available".
  unfoldable pub free_port : SproutPool → ℕ → Option ℕ
  free_port p start = free_port_from p start 0 (p.port_hi + 1 - p.port_lo)
