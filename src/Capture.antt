-- ===== src/Capture.antt =====
-- Capture.h and Capture.cpp: the list model of the packet rows.
pub mod Model
pub mod Sorts
pub mod Order
pub mod Address
pub mod Sorted
pub mod Notices
