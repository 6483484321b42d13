-- ===== src/Engine.antt =====
-- components/opendisplay/transfer_engine.h and transfer_engine.cpp: the byte and sequence
-- accounting of both transfer paths.
pub mod State
pub mod Finish
pub mod Start
pub mod Direct
pub mod Pipe
pub mod Tick
pub mod Stalled
pub mod Names
pub mod Calls
pub mod Invariant
pub mod Trace
pub mod Deadline
pub mod Terminal
pub mod Delivery
