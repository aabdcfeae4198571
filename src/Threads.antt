-- ===== src/Threads.antt =====
-- Pcap.cpp: the capture threads and the thread of the user interface side by side, with the calls
-- that are queued between them.
pub mod System
pub mod Solo
pub mod Handles
pub mod Lists
pub mod Ending
pub mod Races
pub mod Refines
pub mod Traces
pub mod Chain
