-- ===== src/Control.antt =====
-- The control plane, apps/control.
pub mod CliAuthorization
pub mod Deploys
pub mod Domains
pub mod Secrets
pub mod Artifact
pub mod EventTypes
pub mod Events
pub mod Limits
pub mod Store
pub mod Webhooks
