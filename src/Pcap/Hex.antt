-- ===== src/Pcap/Hex.antt =====
-- Pcap.cpp, Pcap::start_hax: the hex and ASCII dump of a stored packet.
pub mod Text
pub mod Laws
pub mod Decode
use mini_wireshark.Base.{
  ℕ, zero, suc, ◌+◌, ◌/◌, ◌^◌, List, [], ◌∷◌, ◌++◌, Option, none, some, ltb, leb, if◌then◌else◌,
  ◌&&◌, ◌>>=◌,
}
use mini_wireshark.Qt.{QString, qs, Qt}
use mini_wireshark.Packet.Memory.{Bytes, read8}
use mini_wireshark.Packet.Rows.{DumpData}
use mini_wireshark.Pcap.State.{Pcap}
use mini_wireshark.Pcap.Dumps.{find_dump}

-- A printable character stands for itself, any other byte for a dot.
unfoldable pub ascii_char : ℕ → ℕ
ascii_char c = if leb 32 c && leb c 126 then c else b'.'

-- The inner loop: `k` rounds are left, at position j of the line that begins at offset i.
unfoldable pub cell_loop :
    Qt → Bytes → ℕ → ℕ → ℕ → ℕ → QString → QString → Option (QString × QString)
cell_loop q content len i zero j hex_part ascii_part = some (hex_part, ascii_part)
cell_loop q content len i (suc k) j hex_part ascii_part =
    let padded =
      cell_loop q content len i k (j + 1) (hex_part ++ qs "   ") (ascii_part ++ qs " ") in
    let next : Option (QString × QString) = (do
      c ← read8 content (i + j)
      cell_loop q content len i k (j + 1) (hex_part ++ q.arg_width (qs "%1 ") c 2 16 b'0')
          (ascii_part ++ ascii_char c ∷ [])) in
    if ltb (i + j) len then next else padded

-- One line: offset, hex part of fixed width, ASCII part.
unfoldable pub line_of : Qt → Bytes → ℕ → ℕ → Option QString
line_of q content len i = do
  (hex_part, ascii_part) ← cell_loop q content len i 16 0 [] []
  some (
      q.arg_width (qs "%1   ") i 4 16 b'0'
      ++ (q.left_justified hex_part 48 b' ' ++ (qs "     " ++ (ascii_part ++ qs "\n"))))

-- The outer loop: `fuel` bounds the rounds.
unfoldable pub line_loop : ℕ → Qt → Bytes → ℕ → ℕ → QString → Option QString
line_loop zero q content len i out = none
line_loop (suc fuel) q content len i out =
    let rest : Option QString = (do
      line ← line_of q content len i
      line_loop fuel q content len (i + 16) (out ++ line)) in
    if ltb i len then rest else some out

-- `int len = caplen`: a value from 2 ^ 31 on is negative, and makes no round.
unfoldable pub int_len : ℕ → ℕ
int_len caplen = if ltb caplen (2 ^ 31) then caplen else 0

unfoldable pub dump_of : Qt → Bytes → ℕ → Option QString
dump_of q [] caplen = some (qs "-")
dump_of q (b ∷ bs) caplen = line_loop (int_len caplen / 16 + 2) q (b ∷ bs) (int_len caplen) 0 []

unfoldable pub start_hax : Qt → Pcap → ℕ → Option QString
start_hax q s idx = elim (find_dump s idx) [
  | none ↦ some (qs "-")
  | some d ↦ dump_of q d.content d.header.caplen
]
