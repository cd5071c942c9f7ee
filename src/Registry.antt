-- ===== src/Registry.antt =====
-- The validation of the v1alpha1 API: pkg/registry/porch.
pub mod Strategy
pub mod Approval
pub mod Update
pub mod Transitions
pub mod Histories
pub mod Handler
pub mod Admission
