-- ===== src/Packet.antt =====
-- internal/packet/packet.go and the packet part of internal/model/packet.go: the correlation of
-- captured packets with a probe.
pub mod Defs
pub mod Address
pub mod Relevant
pub mod Tcp
pub mod Path
pub mod Correlate
pub mod Pairs
pub mod Flows
pub mod Honest
pub mod Keys
pub mod Order
pub mod Port
pub mod Complete
mod Tests
