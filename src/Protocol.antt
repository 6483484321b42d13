-- ===== src/Protocol.antt =====
-- components/opendisplay/protocol.h and protocol.cpp: frame parsing and response encoding.
pub mod Frame
pub mod Response
pub mod PipeStart
pub mod Sack
pub mod Version
pub mod Msd
pub mod Crc
pub mod Config
pub mod Chunk
