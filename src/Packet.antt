-- ===== src/Packet.antt =====
-- Packets as captured: the bytes of a buffer, libpcap's record header (pcap_pkthdr), the header
-- structs of Struct_in.h, and the row and the dump that the program keeps of a packet.
pub mod Memory
pub mod Eh
pub mod IpH
pub mod TcpH
pub mod UdpH
pub mod IcmpH
pub mod Rows
pub mod Laws
