-- ===== src/Bmv2.antt =====
-- lib/bmv2: the network layer of a host beside a BMv2 switch, over captured packets.
pub mod Frame
pub mod Checksums
pub mod Building
pub mod Pcap
pub mod Scans
pub mod Growth
pub mod Polling
pub mod Delivery
pub mod Host
pub mod Abandoned
pub mod Tests
