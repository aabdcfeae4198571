-- ===== src/Pcap/Tree.antt =====
-- Pcap.cpp, Pcap::start_tree_md: the tree of header fields of a stored packet.
pub mod Item
pub mod Ether
pub mod Ip
pub mod Tcp
pub mod Others
pub mod Start
pub mod Fields
pub mod Wire
pub mod Lines
pub mod Shape
