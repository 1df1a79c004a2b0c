-- ===== src/Iproto.antt =====
-- The iproto package (pkg/iproto/iproto): packing of values, packets, and the store of pending calls.
pub mod Pack
pub mod Packet
pub mod Channel
pub mod Peers
pub mod Store
