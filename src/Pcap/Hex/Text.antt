-- ===== src/Pcap/Hex/Text.antt =====
-- The text of the dump, described without the loops: hexadecimal digits, lines, and how a reader
-- gets the bytes back from a dump.
use mini_wireshark.Base.{
  ℕ, zero, suc, ◌+◌, ◌-◌, ◌*◌, ◌/◌, ◌%◌, ◌≤◌, ◌<◌, ◌≡◌, [], ◌∷◌, ◌++◌, length, drop, ltb, leb, ◌==◌,
  ◌&&◌, if◌then◌else◌,
}
use mini_wireshark.Qt.{QString, qs, Qt}
use mini_wireshark.Packet.Memory.{Bytes, byte}

unfoldable pub hex_digit : ℕ → ℕ
hex_digit d = if ltb d 10 then b'0' + d else d + 87

unfoldable pub hex_byte : ℕ → QString
hex_byte c = hex_digit (c / 16) ∷ hex_digit (c % 16) ∷ []

unfoldable pub hex_offset : ℕ → QString
hex_offset i =
    hex_digit (i / 4096)
    ∷ hex_digit (i / 256 % 16)
    ∷ hex_digit (i / 16 % 16)
    ∷ hex_digit (i % 16)
    ∷ []

-- What Qt documents of the calls in start_hax: `arg` with a width, base 16 and fill '0', and
-- `leftJustified` of a text that is wide enough.
pub record HexLaws (q : Qt) : Type 0 where
  pub offset : (i : ℕ) → i < 65536 → q.arg_width (qs "%1   ") i 4 16 b'0' ≡ hex_offset i ++ qs "   "
  pub cell : (c : ℕ) → c < 256 → q.arg_width (qs "%1 ") c 2 16 b'0' ≡ hex_byte c ++ qs " "
  pub wide : (s : QString) (w c : ℕ) → w ≤ length s → q.left_justified s w c ≡ s

unfoldable pub digit_value : ℕ → ℕ
digit_value ch = if leb ch b'9' then ch - b'0' else ch - 87

-- Up to k cells of three characters; a blank cell ends the line.
unfoldable pub read_cells : ℕ → QString → Bytes
unfolding digit_value
read_cells zero t = []
read_cells (suc k) [] = []
read_cells (suc k) (a ∷ []) = []
read_cells (suc k) (a ∷ b ∷ []) = []
read_cells (suc k) (a ∷ b ∷ c ∷ t) =
    if a == b' ' then [] else (digit_value a * 16 + digit_value b) ∷ read_cells k t

-- Lines of 77 characters, with the cells from column 7 on.
unfoldable pub read_lines : ℕ → QString → Bytes
unfolding read_cells
read_lines zero t = []
read_lines (suc k) t = read_cells 16 (drop 7 t) ++ read_lines k (drop 77 t)

-- The n bytes from position s on.
unfoldable pub slice : Bytes → ℕ → ℕ → Bytes
slice p s zero = []
slice p s (suc n) = byte p s ∷ slice p (s + 1) n

-- The k cells of a line from position s on, of which those before `len` hold a byte.
unfoldable pub hex_cells : Bytes → ℕ → ℕ → ℕ → QString
unfolding hex_digit
hex_cells p len s zero = []
hex_cells p len s (suc k) =
    (if ltb s len then hex_digit (byte p s / 16) else b' ')
    ∷ (if ltb s len then hex_digit (byte p s % 16) else b' ')
    ∷ b' '
    ∷ hex_cells p len (s + 1) k

unfoldable pub ascii_cells : Bytes → ℕ → ℕ → ℕ → QString
ascii_cells p len s zero = []
ascii_cells p len s (suc k) =
    (if ltb s len
      then (if leb 32 (byte p s) && leb (byte p s) 126 then byte p s else b'.')
      else b' ')
    ∷ ascii_cells p len (s + 1) k

unfoldable pub line_text : Bytes → ℕ → ℕ → QString
unfolding hex_offset hex_cells ascii_cells
line_text p len i =
    (hex_offset i ++ qs "   ")
    ++ (hex_cells p len i 16 ++ (qs "     " ++ (ascii_cells p len i 16 ++ qs "\n")))

-- The first k lines from offset i on.
unfoldable pub lines_text : Bytes → ℕ → ℕ → ℕ → QString
lines_text p len i zero = []
lines_text p len i (suc k) = line_text p len i ++ lines_text p len (i + 16) k
