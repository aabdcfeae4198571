-- ===== src/Pcap/Hex/Decode.antt =====
-- A dump gives its bytes back: reading the hex columns of the text of start_hax.
use native.Mathlib.Nat.{add-zero, zero-add, sub-zero}
use mini_wireshark.Base.{
  ℕ, zero, suc, ◌+◌, ◌-◌, ◌*◌, ◌/◌, ◌%◌, ◌≤◌, ◌<◌, ◌≡◌, ◌≢◌, refl, ◌∙◌, ap, List, [], ◌∷◌, ◌++◌,
  some, arith, min, length, take, drop, append_assoc, append-nil, length-append, Bool-cases, inl,
  inr, ltb, ltb→lt, ltb→le, ◌==◌, false,
}
use mini_wireshark.Qt.{QString, qs, Qt}
use mini_wireshark.Packet.Memory.{Bytes, AreBytes, byte, byte-lt}
use mini_wireshark.Packet.Rows.{DumpData}
use mini_wireshark.Pcap.State.{Pcap}
use mini_wireshark.Pcap.Dumps.{find_dump}
use mini_wireshark.Pcap.Hex.{start_hax}
use mini_wireshark.Pcap.Hex.Text.{
  HexLaws, hex_digit, digit_value, hex_offset, hex_cells, line_text, lines_text, read_cells,
  read_lines, slice,
}
use mini_wireshark.Pcap.Hex.Laws.{length-line_text, line_count, dump_of-some}

digit_value-hex_digit : (d : ℕ) → d < 16 → digit_value (hex_digit d) ≡ d
unfolding digit_value hex_digit
digit_value-hex_digit d h = ground arith

hex_digit-ne-blank : (d : ℕ) → (hex_digit d == 32) ≡ false
unfolding hex_digit
hex_digit-ne-blank d = ground arith

slice-append : (p : Bytes) (s a b : ℕ) → slice p s a ++ slice p (s + a) b ≡ slice p s (a + b)
unfolding slice
slice-append p s zero b = rw (add-zero s, zero-add b)
slice-append p s (suc a) b =
    let shift : s + suc a ≡ s + 1 + a = omega arith in
    let grow : suc a + b ≡ suc (a + b) = omega arith in
    rw (shift, grow) (ap (◌∷◌ (byte p s)) (slice-append p (s + 1) a b))

slice-cons : (x : ℕ) (p : Bytes) (s n : ℕ) → slice (x ∷ p) (suc s) n ≡ slice p s n
unfolding slice
slice-cons x p s zero = refl
slice-cons x p s (suc n) =
    let shift : suc s + 1 ≡ suc (s + 1) = omega arith in
    rw shift (ap (◌∷◌ (byte p s)) (slice-cons x p (s + 1) n))

slice-take : (p : Bytes) (n : ℕ) → n ≤ length p → slice p 0 n ≡ take n p
unfolding slice
slice-take p zero h = refl
slice-take [] (suc n) h = absurd (omega arith)
slice-take (x ∷ p) (suc n) h = ap (◌∷◌ x) (slice-cons x p 0 n ∙ slice-take p n (omega arith))

drop-append {ℓ} : {A : Type ℓ} (xs ys : List A) → drop (length xs) (xs ++ ys) ≡ ys
drop-append [] ys = refl
drop-append (x ∷ xs) ys = drop-append xs ys

module _ (p : Bytes) (len : ℕ) (bytes : AreBytes p) where
  read_cells-hex_cells :
      (s k : ℕ) (rest : QString)
      → read_cells k (hex_cells p len s k ++ rest) ≡ slice p s (min k (len - s))
  unfolding read_cells hex_cells slice
  read_cells-hex_cells s zero rest =
      let none_left : min 0 (len - s) ≡ 0 = omega arith in rw none_left
  read_cells-hex_cells s (suc k) rest = elim (Bool-cases (ltb s len)) [
    | inl t ↦
        let inside : s < len = ltb→lt s len t in
        let small : byte p s < 256 = byte-lt p s bytes in
        let left : min (suc k) (len - s) ≡ suc (min k (len - (s + 1))) = omega arith in
        let whole : byte p s / 16 * 16 + byte p s % 16 ≡ byte p s = omega arith in
        rw
          (
            t,
            left,
            hex_digit-ne-blank (byte p s / 16),
            digit_value-hex_digit (byte p s / 16) (omega arith),
            digit_value-hex_digit (byte p s % 16) (omega arith),
            whole,
          )
          (ap (◌∷◌ (byte p s)) (read_cells-hex_cells (s + 1) k rest))
    | inr f ↦
        let outside : len ≤ s = ltb→le s len f in
        let left : min (suc k) (len - s) ≡ 0 = omega arith in rw (f, left)
  ]

  -- The columns of the first line of a text.
  cells_of :
      (i : ℕ) (rest : QString)
      → read_cells 16 (drop 7 (line_text p len i ++ rest)) ≡ slice p i (min 16 (len - i))
  unfolding line_text hex_offset qs
  cells_of i rest = rw (append_assoc (hex_cells p len i 16)) (read_cells-hex_cells i 16 _)

  drop_line : (i : ℕ) (rest : QString) → drop 77 (line_text p len i ++ rest) ≡ rest
  drop_line i rest = rw (← length-line_text p len i) (drop-append (line_text p len i) rest)

  join :
      (i : ℕ)
      → slice p i (min 16 (len - i)) ++ slice p (i + 16) (len - (i + 16)) ≡ slice p i (len - i)
  unfolding slice
  join i = elim (Bool-cases (ltb (len - i) 16)) [
    | inl t ↦
        let last : len - i < 16 = ltb→lt (len - i) 16 t in
        let all : min 16 (len - i) ≡ len - i = omega arith in
        let nothing : len - (i + 16) ≡ 0 = omega arith in
        rw (all, nothing) (append-nil (slice p i (len - i)))
    | inr f ↦
        let more : 16 ≤ len - i = ltb→le (len - i) 16 f in
        let full : min 16 (len - i) ≡ 16 = omega arith in
        let total : 16 + (len - (i + 16)) ≡ len - i = omega arith in
        rw full (slice-append p i 16 (len - (i + 16)) ∙ ap (slice p i) total)
  ]

  read_lines-lines_text :
      (i k : ℕ) → len ≤ i + 16 * k → read_lines k (lines_text p len i k) ≡ slice p i (len - i)
  unfolding read_lines lines_text slice
  read_lines-lines_text i zero h = let nothing : len - i ≡ 0 = omega arith in rw nothing
  read_lines-lines_text i (suc k) h =
      rw
        (
          drop_line i (lines_text p len (i + 16) k),
          read_lines-lines_text (i + 16) k (omega arith),
          cells_of i (lines_text p len (i + 16) k),
        )
        (join i)

length-lines_text : (p : Bytes) (len i k : ℕ) → length (lines_text p len i k) ≡ 77 * k
unfolding lines_text
length-lines_text p len i zero = refl
length-lines_text p len i (suc k) = omega (
  arith,
  length-append (line_text p len i) (lines_text p len (i + 16) k),
  length-line_text p len i,
  length-lines_text p len (i + 16) k,
)

-- The dump of a stored packet of bytes that is found, is not empty, holds its captured length and
-- has offsets of four digits, with Qt's number formats: it has one line of 77 characters for every
-- 16 bytes begun, and a reader of its hex columns gets the captured bytes back, all and in order.
pub start_hax-read_lines :
    (q : Qt)
    → HexLaws q
    → (s : Pcap) (idx : ℕ) (d : DumpData) → find_dump s idx ≡ some d
    → AreBytes d.content
    → d.content ≢ []
    → d.header.caplen ≤ length d.content
    → d.header.caplen ≤ 65536
    → (text : QString) × (start_hax q s idx ≡ some text)
      × (read_lines (line_count d.header.caplen) text ≡ take d.header.caplen d.content)
      × (length text ≡ 77 * line_count d.header.caplen)
unfolding start_hax
start_hax-read_lines q laws s idx d found bytes some_data fits small = (
  lines_text d.content d.header.caplen 0 (line_count d.header.caplen),
  rw (found, start_hax) (dump_of-some q laws d.content d.header.caplen bytes some_data fits small),
  read_lines-lines_text d.content d.header.caplen bytes 0 (line_count d.header.caplen) (omega arith)
      ∙ ap (slice d.content 0) (sub-zero d.header.caplen)
      ∙ slice-take d.content d.header.caplen fits,
  length-lines_text d.content d.header.caplen 0 (line_count d.header.caplen),
)
