-- ===== src/Tests.antt =====
-- Concrete inputs at which the theorems apply, and instances of the parameters: text and socket
-- functions that meet the documented laws, a sort that meets the contract of std::sort, and a
-- database that meets the laws of the table.
mod Sample
mod InsertionSort
mod PacketTests
mod PcapTests
mod CaptureTests
mod TreeTests
mod ControlTests
mod WalkTests
mod ThreadTests
mod SampleDatabase
mod SampleTable
mod OpenListTests
