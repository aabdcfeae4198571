-- ===== src/Pcap/Dumps.antt =====
-- Pcap.cpp: the search for a stored packet by its number, which start_hax and start_tree_md make.
use mini_wireshark.Base.{ℕ, List, [], ◌∷◌, Option, none, some, ◌==◌, if◌then◌else◌}
use mini_wireshark.Packet.Rows.{DumpData}
use mini_wireshark.Pcap.State.{Pcap}

-- The loop does not stop at a match: the last one stays. `none` is the default value, with no data.
unfoldable pub find_loop : ℕ → Option DumpData → List DumpData → Option DumpData
find_loop idx found [] = found
find_loop idx found (v ∷ vs) = find_loop idx (if v.pkt_num == idx then some v else found) vs

unfoldable pub search_in : List DumpData → List DumpData → ℕ → Option DumpData
unfolding find_loop
search_in (v ∷ vs) dump idx = find_loop idx none (v ∷ vs)
search_in [] dump idx = find_loop idx none dump

unfoldable pub find_dump : Pcap → ℕ → Option DumpData
unfolding search_in
find_dump s idx = search_in s.vec_dump_file s.vec_dump idx
