-- ===== src/Supervisor.antt =====
-- services/supervisor/src: the processes that serve deployments and the screens around them.
pub mod Pool
pub mod SqliteGuard
pub mod Credentials
pub mod BrokerArgs
pub mod Listeners
