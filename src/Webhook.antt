-- ===== src/Webhook.antt =====
-- Webhook.
pub mod Equality
pub mod Validator
pub mod Updates
pub mod Checks
pub mod Creation
pub mod Deletion
pub mod Cluster
pub mod Overlapping
pub mod Agreement
