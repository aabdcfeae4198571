-- ===== src/Pcap/Hex/Laws.antt =====
-- The loops of start_hax write the described text, and stay within the stored bytes.
use mini_wireshark.Base.{
  ℕ, zero, suc, ◌+◌, ◌*◌, ◌/◌, ◌^◌, ◌≤◌, ◌<◌, ◌≡◌, refl, ◌∙◌, [], ◌∷◌, ◌++◌, Option, some, arith,
  length, length-append, append_assoc, append-nil, Bool-cases, inl, inr, ltb, ltb→lt, lt→ltb,
  le→ltb, ◌≢◌,
}
use native.Mathlib.Nat.{add_assoc, add-zero}
use mini_wireshark.Qt.{QString, qs, Qt}
use mini_wireshark.Packet.Memory.{Bytes, AreBytes, byte, byte-lt, read8-some}
use mini_wireshark.Pcap.Hex.{ascii_char, cell_loop, line_of, line_loop, int_len, dump_of}
use mini_wireshark.Pcap.Hex.Text.{
  HexLaws, hex_byte, hex_offset, hex_cells, ascii_cells, line_text, lines_text,
}

pub length-hex_cells : (p : Bytes) (len s k : ℕ) → length (hex_cells p len s k) ≡ 3 * k
unfolding hex_cells
length-hex_cells p len s zero = refl
length-hex_cells p len s (suc k) = omega (arith, length-hex_cells p len (s + 1) k)

pub length-ascii_cells : (p : Bytes) (len s k : ℕ) → length (ascii_cells p len s k) ≡ k
unfolding ascii_cells
length-ascii_cells p len s zero = refl
length-ascii_cells p len s (suc k) = omega (arith, length-ascii_cells p len (s + 1) k)

-- Every line has 77 characters.
pub length-line_text : (p : Bytes) (len i : ℕ) → length (line_text p len i) ≡ 77
unfolding line_text qs hex_offset
length-line_text p len i = omega (
  arith,
  length-append (hex_cells p len i 16) (qs "     " ++ (ascii_cells p len i 16 ++ qs "\n")),
  length-append (ascii_cells p len i 16) (qs "\n"),
  length-hex_cells p len i 16,
  length-ascii_cells p len i 16,
)

module _ (q : Qt) (laws : HexLaws q) (p : Bytes) (len : ℕ) (bytes : AreBytes p)
    (fits : len ≤ length p) where
  cell_loop-some :
      (i k j : ℕ) (hex_part ascii_part : QString)
      → cell_loop q p len i k j hex_part ascii_part
        ≡ some (hex_part ++ hex_cells p len (i + j) k, ascii_part ++ ascii_cells p len (i + j) k)
  unfolding cell_loop ascii_char hex_cells ascii_cells hex_byte qs
  cell_loop-some i zero j hex_part ascii_part = rw (append-nil hex_part, append-nil ascii_part)
  cell_loop-some i (suc k) j hex_part ascii_part = elim (Bool-cases (ltb (i + j) len)) [
    | inl t ↦
        rw
          (
            t,
            read8-some p (i + j) (omega (arith, ltb→lt (i + j) len t)),
            laws.cell (byte p (i + j)) (byte-lt p (i + j) bytes),
          )
          (cell_loop-some i k (j + 1) _ _
            ∙ extend (hex_byte (byte p (i + j)) ++ qs " ") (ascii_char (byte p (i + j)) ∷ []))
    | inr f ↦ rw f (cell_loop-some i k (j + 1) _ _ ∙ extend (qs "   ") (qs " "))
  ]
    where
      extend :
          (a b : QString)
          → ◌≡◌ {A = Option (QString × QString)}
              (some (
                (hex_part ++ a) ++ hex_cells p len (i + (j + 1)) k,
                (ascii_part ++ b) ++ ascii_cells p len (i + (j + 1)) k,
              ))
              (some (
                hex_part ++ (a ++ hex_cells p len (i + j + 1) k),
                ascii_part ++ (b ++ ascii_cells p len (i + j + 1) k),
              ))
      extend a b = rw (
        append_assoc hex_part a (hex_cells p len (i + (j + 1)) k),
        append_assoc ascii_part b (ascii_cells p len (i + (j + 1)) k),
        add_assoc i j 1,
      )

  line_of-some : (i : ℕ) → i < 65536 → line_of q p len i ≡ some (line_text p len i)
  unfolding line_of line_text
  line_of-some i small = rw (
    cell_loop-some i 16 0 [] [],
    laws.offset i small,
    laws.wide (hex_cells p len (i + 0) 16) 48 b' '
        (omega (arith, length-hex_cells p len (i + 0) 16)),
    add-zero i,
  )

  -- With enough fuel the outer loop writes the k lines that are left.
  pub line_loop-some :
      (k fuel i : ℕ) (out : QString)
      → len ≤ i + 16 * k
      → i + 16 * k < len + 16
      → k < fuel
      → len ≤ 65536
      → line_loop fuel q p len i out ≡ some (out ++ lines_text p len i k)
  unfolding line_loop lines_text
  line_loop-some k zero i out lo hi enough small = absurd (omega arith)
  line_loop-some zero (suc fuel) i out lo hi enough small =
      rw (le→ltb i len (omega arith), append-nil out)
  line_loop-some (suc k) (suc fuel) i out lo hi enough small = rw (
    lt→ltb i len (omega arith),
    line_of-some i (omega arith),
    line_loop-some k fuel (i + 16) (out ++ line_text p len i) (omega arith) (omega arith)
        (omega arith) small,
    append_assoc out (line_text p len i) (lines_text p len (i + 16) k),
  )

-- The number of lines of a dump.
abbrev pub line_count : ℕ → ℕ
line_count len = (len + 15) / 16

pub dump_of-some :
    (q : Qt)
    → HexLaws q
    → (content : Bytes) (caplen : ℕ) → AreBytes content
    → content ≢ []
    → caplen ≤ length content
    → caplen ≤ 65536
    → dump_of q content caplen ≡ some (lines_text content caplen 0 (line_count caplen))
unfolding dump_of int_len
dump_of-some q laws [] caplen bytes some_data fits small = absurd (some_data refl)
dump_of-some q laws (b ∷ bs) caplen bytes some_data fits small =
    rw (lt→ltb caplen (2 ^ 31) (omega arith)) (
      line_loop-some q laws (b ∷ bs) caplen bytes fits (line_count caplen) (caplen / 16 + 2) 0 []
        (omega arith) (omega arith) (omega arith) small)
