-- ===== src/Component.antt =====
-- components/opendisplay/opendisplay.h and opendisplay.cpp: the component that joins the rings, the
-- protocol and the transfer engine.
pub mod State
pub mod Respond
pub mod Dispatch
pub mod History
pub mod Kept
pub mod Refine
pub mod Frames
pub mod Order
pub mod Visit
pub mod Temperature
pub mod Names
pub mod Gatt
pub mod Heard
pub mod Config
pub mod Sound
pub mod Setup
pub mod Stale
pub mod Answered
