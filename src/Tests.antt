-- ===== src/Tests.antt =====
-- Concrete devices and inputs, on which the theorems are applied and the operations run.
pub mod Backends
pub mod Component
pub mod Engine
pub mod Gatt
pub mod Image
pub mod Protocol
pub mod Transport
pub mod Shared
pub mod Answered
