-- ===== src/Examples.antt =====
-- Test data and runs of the theorems on it.
mod Samples
mod Names
mod Key
mod Git
mod Removal
mod Lifecycle
mod Registry
mod Webhook
mod Watchers
mod Controller
mod Packages
mod Database
mod Pushes
mod SafeJoin
mod VariantSets
mod Pods
mod DataSize
mod RepoMap
mod Variants
