-- ===== src/Supervisor/Pool.antt =====
-- services/supervisor/src/run.ts, `SproutPool`: the deployment-keyed pool of server processes.
-- A `SproutServer` object is shared between the pool's map and the calls that wait for it, so the
-- objects stand on a heap and the map holds references.
mod Tests
pub mod State
pub mod Key
pub mod Ports
pub mod Endpoint
pub mod Timed
pub mod Lifecycle
pub mod Valid
pub mod Reach
pub mod Race
pub mod Reaping
pub mod Backoff
