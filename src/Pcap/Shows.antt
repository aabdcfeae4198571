-- ===== src/Pcap/Shows.antt =====
-- What a file shows: the rows and the stored packets that Pcap::pcapFile_Read adds, against the wire
-- format of the packets.
use mini_wireshark.Base.{
  ℕ, ◌+◌, ◌≤◌, ◌<◌, ◌≡◌, refl, ◌∙◌, ap, List, [], ◌∷◌, ◌++◌, some, arith, length, take, none, ◌⊎◌,
  inl, inr, append_assoc, append-nil,
}
use mini_wireshark.Qt.{Qt, QString}
use mini_wireshark.Packet.Memory.{Bytes, Endian, AreBytes}
use mini_wireshark.Packet.Rows.{Header, StPkt, DumpData, int_max}
use mini_wireshark.Worker.Event.{Worker}
use mini_wireshark.Worker.Handler.{Verdict, ignored, row}
use mini_wireshark.Worker.Wire.{wire_verdict, IsComplete}
use mini_wireshark.Worker.Outcome.{wire_row, outcome, my_packet_handler-wire}
use mini_wireshark.Capture.Model
use mini_wireshark.Pcap.State
use mini_wireshark.Pcap.State.{Pcap, deliver, deliver_all}
use mini_wireshark.Pcap.Offline.{packet_func, read_loop}
use mini_wireshark.Pcap.Live.{absorb, packet_func-absorb}

-- A packet record of bytes, of which the capture holds all that the source reads.
pub record IsSound (h : Header) (p : Bytes) : Type 0 where
  pub bytes : AreBytes p
  pub cap : h.caplen ≡ length p
  pub whole : h.len ≤ length p
  pub complete : IsComplete p

abbrev pub AllSound : List (Header × Bytes) → Type 0
AllSound [] = Unit
AllSound ((h, p) ∷ rest) = IsSound h p × AllSound rest

-- The copy of a packet.
abbrev pub wire_dump : Header → Bytes → ℕ → DumpData
wire_dump h p num = record { pkt_num = num; header = h; content = take h.len p }

-- The rows of the supported packets, numbered one after the other.
unfoldable pub wire_rows : Qt → ℕ → List (Header × Bytes) → List StPkt
wire_rows q num [] = []
wire_rows q num ((h, p) ∷ rest) = elim (wire_verdict q p) [
  | ignored ↦ wire_rows q num rest
  | row proto info ↦ wire_row q p num proto info ∷ wire_rows q (num + 1) rest
]

-- Their copies, under the same numbers.
unfoldable pub wire_dumps : Qt → ℕ → List (Header × Bytes) → List DumpData
wire_dumps q num [] = []
wire_dumps q num ((h, p) ∷ rest) = elim (wire_verdict q p) [
  | ignored ↦ wire_dumps q num rest
  | row proto info ↦ wire_dump h p num ∷ wire_dumps q (num + 1) rest
]

-- The state t is s with rows and copies added.
abbrev pub Adds : Pcap → Pcap → List StPkt → List DumpData → Type 0
Adds s t rows dumps = (t.md.vec ≡ s.md.vec ++ rows) × (t.vec_dump ≡ s.vec_dump ++ dumps)

Adds-refl : (s : Pcap) → Adds s s [] []
Adds-refl s = (rw (append-nil s.md.vec) refl, rw (append-nil s.vec_dump) refl)

-- The state behind a row and its copy.
abbrev with_row : Pcap → StPkt → DumpData → Pcap
with_row s r d = record s {
  md = Model.update_md s.md r;
  vec_dump = s.vec_dump ++ d ∷ [];
  num = s.num + 1;
}

Adds-with_row :
    (s t : Pcap) (r : StPkt) (d : DumpData) (rows : List StPkt) (dumps : List DumpData)
    → Adds (with_row s r d) t rows dumps
    → Adds s t (r ∷ rows) (d ∷ dumps)
unfolding Model.update_md
Adds-with_row s t r d rows dumps h =
    (h.0 ∙ append_assoc s.md.vec (r ∷ []) rows, h.1 ∙ append_assoc s.vec_dump (d ∷ []) dumps)

-- Any worker: what it posts depends on its counter alone.
abbrev a_worker : ℕ → Worker
a_worker num = record { pp = none; num = num; nic_name = []; bfs_ft = [] }

Verdict-cases :
    (v : Verdict) → (v ≡ ignored) ⊎ ((proto : QString) × (info : QString) × (v ≡ row proto info))
Verdict-cases ignored = inl refl
Verdict-cases (row proto info) = inr (proto, info, refl)

module _ (e : Endian) (q : Qt) where
  packet_func-outcome :
      (s : Pcap) (h : Header) (p : Bytes)
      → IsSound h p
      → s.num < int_max
      → packet_func e q s h p ≡ absorb s (some (outcome q (a_worker s.num) h p (wire_verdict q p)))
  packet_func-outcome s h p sound room =
      packet_func-absorb e q s (a_worker s.num) h p
      ∙ ap (absorb s) (
          my_packet_handler-wire e q (a_worker s.num) h p sound.bytes sound.cap sound.complete
            sound.whole room)

  packet_func_ignored :
      (s : Pcap) (h : Header) (p : Bytes)
      → IsSound h p
      → s.num < int_max
      → wire_verdict q p ≡ ignored
      → packet_func e q s h p ≡ some s
  unfolding deliver_all
  packet_func_ignored s h p sound room is =
      packet_func-outcome s h p sound room
      ∙ ap (λ v. absorb s (some (outcome q (a_worker s.num) h p v))) is

  packet_func_shown :
      (s : Pcap) (h : Header) (p : Bytes) (proto info : QString)
      → IsSound h p
      → s.num < int_max
      → wire_verdict q p ≡ row proto info
      → packet_func e q s h p
        ≡ some (with_row s (wire_row q p s.num proto info) (wire_dump h p s.num))
  unfolding deliver_all deliver State.update_md State.dump_push_back
  packet_func_shown s h p proto info sound room is =
      packet_func-outcome s h p sound room
      ∙ ap (λ v. absorb s (some (outcome q (a_worker s.num) h p v))) is

  -- Reading sound packets, so few that the counter stays an int, comes to its end with no read
  -- outside of a buffer: the list gets the row of every supported packet, as the wire format says,
  -- in the order of the file and numbered one after the other, and the stored packets their copies.
  pub read_loop-wire_rows :
      (ps : List (Header × Bytes)) (s : Pcap)
      → AllSound ps
      → s.num + length ps ≤ int_max
      → (t : Pcap) × (read_loop e q s ps ≡ some t)
        × Adds s t (wire_rows q s.num ps) (wire_dumps q s.num ps)
  unfolding read_loop wire_rows wire_dumps
  read_loop-wire_rows [] s sound room = (s, refl, Adds-refl s)
  read_loop-wire_rows ((h, p) ∷ rest) s sound room = elim (Verdict-cases (wire_verdict q p)) [
    | inl is ↦
        rw (packet_func_ignored s h p sound.0 (omega arith) is, wire_rows, wire_dumps, is)
          (read_loop-wire_rows rest s sound.1 (omega arith))
    | inr (proto, info, is) ↦
        let r : StPkt = wire_row q p s.num proto info in
        let d : DumpData = wire_dump h p s.num in
        let (t, done, added) = read_loop-wire_rows rest (with_row s r d) sound.1 (omega arith) in
        rw (packet_func_shown s h p proto info sound.0 (omega arith) is, wire_rows, wire_dumps, is)
          (
            t,
            done,
            Adds-with_row s t r d (wire_rows q (s.num + 1) rest) (wire_dumps q (s.num + 1) rest)
                added,
          )
  ]
