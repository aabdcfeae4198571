-- ===== src/Pcap.antt =====
-- Pcap.cpp, class Pcap: the object that the user interface talks to. Its state, the reading of
-- capture files, the control of the capture thread, the hex dump, the checksum and the tree.
pub mod State
pub mod Info
pub mod Offline
pub mod Live
pub mod Shows
pub mod Dumps
pub mod Hex
pub mod Checksum
pub mod Tree
pub mod Control
pub mod Save
pub mod Sessions
pub mod Captures
pub mod Reach
