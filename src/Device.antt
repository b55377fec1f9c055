-- ===== src/Device.antt =====
-- crates/virtual-yubihsm-core/src/device.rs, one module for each part of the device.
pub mod Authorize
pub mod Options
pub mod Audit
pub mod State
pub mod Default
pub mod Store
pub mod Tables
pub mod Material
pub mod Put
pub mod Use
pub mod Symmetric
pub mod Read
pub mod Wrapped
pub mod Wrap
pub mod Attestation
pub mod Execute
pub mod Command
pub mod Sessions
pub mod Messages
pub mod Entry
pub mod Persist
pub mod Effects
pub mod Invariant
pub mod Rights
pub mod Derivation
