-- ===== src/Worker.antt =====
-- Pcap.cpp, class Worker: the capture thread. Its state, the dissection of one packet
-- (my_packet_handler), and the messages that it posts to the Pcap object.
pub mod Event
pub mod Info
pub mod Handler
pub mod Wire
pub mod Lines
pub mod Agreement
pub mod Outcome
pub mod Faults
pub mod Session
