-- ===== src/Pcap/Save.antt =====
-- Pcap.cpp, Pcap::save_md: writing the stored packets to a file. `opened` tells whether
-- pcap_open_dead and pcap_dump_open succeed; the result is the records written, none if no file is.
pub mod RoundTrip
pub mod Session
use mini_wireshark.Base.{
  Bool, true, false, ◌||◌, not, List, [], ◌∷◌, Option, none, some, if◌then◌else◌, ◌>>=◌,
}
use mini_wireshark.Packet.Memory.{Bytes}
use mini_wireshark.Packet.Rows.{Header, DumpData, byte_array}
use mini_wireshark.Pcap.State.{Pcap}

-- pcap_dump writes the header and `caplen` bytes from the data pointer.
unfoldable pub dump_record : DumpData → Option (Header × Bytes)
dump_record d = do written ← byte_array d.content d.header.caplen; some (d.header, written)

unfoldable pub dump_loop : List DumpData → Option (List (Header × Bytes))
dump_loop [] = some []
dump_loop (v ∷ vs) = do r ← dump_record v; rs ← dump_loop vs; some (r ∷ rs)

abbrev pub is_empty : List DumpData → Bool
is_empty [] = true
is_empty (v ∷ vs) = false

unfoldable pub save_md : Pcap → Bool → Option (Option (List (Header × Bytes)))
save_md s opened =
    if is_empty s.vec_dump || not s.stop_flag
    then some none
    else if not opened
    then some none
    else do records ← dump_loop s.vec_dump; some (some records)
