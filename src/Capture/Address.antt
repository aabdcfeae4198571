-- ===== src/Capture/Address.antt =====
-- The comparator of the address columns orders dotted addresses by their 32-bit value.
use mini_wireshark.Base.{
  ℕ, ◌+◌, ◌*◌, ◌/◌, ◌%◌, ◌^◌, ◌<◌, ◌≡◌, Bool, false, List, [], ◌∷◌, map, Option, some, arith, ltb,
  if◌then◌else◌, ◌||◌,
}
use mini_wireshark.Base.Int.{ℤ, pos, ltb_ℤ, pos_part}
use mini_wireshark.Qt.{QString, Qt}
use mini_wireshark.Capture.Sorts.{compare_parts, less_addr}

-- The bytes of an address in network order, from its value in host order.
abbrev pub dotted : ℕ → List ℕ
dotted n = n / 16777216 ∷ n / 65536 % 256 ∷ n / 256 % 256 ∷ n % 256 ∷ []

-- What the libraries document: inet_ntoa writes four decimal numbers between dots, which `split`
-- takes apart; and toInt reads back what number writes.
pub record AddressLaws (q : Qt) : Type 0 where
  pub split_inet_ntoa :
      (n : ℕ)
      → n < 2 ^ 32
      → q.split (q.inet_ntoa (dotted n)) b'.' ≡ map (λ k. q.number (pos k)) (dotted n)
  pub to_int_number : (k : ℕ) → k < 256 → q.to_int (q.number (pos k)) ≡ pos k

-- The address that a text stands for.
unfoldable pub parts_value : List ℤ → ℕ
parts_value [] = 0
parts_value (a ∷ []) = 0
parts_value (a ∷ b ∷ []) = 0
parts_value (a ∷ b ∷ c ∷ []) = 0
parts_value (a ∷ b ∷ c ∷ d ∷ r) =
    pos_part a * 16777216 + pos_part b * 65536 + pos_part c * 256 + pos_part d

unfoldable pub address : Qt → QString → ℕ
address q s = parts_value (map q.to_int (q.split s b'.'))

-- One part, before the verdict `rest` of the parts behind it.
abbrev lex : Bool → ℕ → ℕ → Option Bool → Option Bool
lex up a b rest =
    if ltb_ℤ (pos a) (pos b) || ltb_ℤ (pos b) (pos a)
    then some (if up then ltb_ℤ (pos a) (pos b) else ltb_ℤ (pos b) (pos a))
    else rest

abbrev by_value : Bool → ℕ → ℕ → Bool
by_value up m n = if up then ltb m n else ltb n m

lex_last : (up : Bool) (a b : ℕ) → lex up a b (some false) ≡ some (by_value up a b)
lex_last up a b = ground arith

lex_1 :
    (up : Bool) (m n : ℕ)
    → lex up (m / 256 % 256) (n / 256 % 256) (some (by_value up (m % 256) (n % 256)))
      ≡ some (by_value up (m % 65536) (n % 65536))
lex_1 up m n = ground arith

lex_2 :
    (up : Bool) (m n : ℕ)
    → lex up (m / 65536 % 256) (n / 65536 % 256) (some (by_value up (m % 65536) (n % 65536)))
      ≡ some (by_value up (m % 16777216) (n % 16777216))
lex_2 up m n = ground arith

lex_3 :
    (up : Bool) (m n : ℕ)
    → lex up (m / 16777216) (n / 16777216) (some (by_value up (m % 16777216) (n % 16777216)))
      ≡ some (by_value up m n)
lex_3 up m n = ground arith

module _ (q : Qt) (laws : AddressLaws q) where
  pub address-inet_ntoa : (n : ℕ) → n < 2 ^ 32 → address q (q.inet_ntoa (dotted n)) ≡ n
  unfolding address parts_value
  address-inet_ntoa n h =
      rw
        (
          laws.split_inet_ntoa n h,
          laws.to_int_number (n / 16777216) (omega arith),
          laws.to_int_number (n / 65536 % 256) (omega arith),
          laws.to_int_number (n / 256 % 256) (omega arith),
          laws.to_int_number (n % 256) (omega arith),
        )
        (omega arith)

  -- Part by part, from the left, is by value.
  pub less_addr-value :
      (up : Bool) (m n : ℕ)
      → m < 2 ^ 32
      → n < 2 ^ 32
      → less_addr q up (q.inet_ntoa (dotted m)) (q.inet_ntoa (dotted n))
        ≡ some (if up then ltb m n else ltb n m)
  unfolding less_addr compare_parts
  less_addr-value up m n hm hn = rw (
    laws.split_inet_ntoa m hm,
    laws.split_inet_ntoa n hn,
    laws.to_int_number (m / 16777216) (omega arith),
    laws.to_int_number (m / 65536 % 256) (omega arith),
    laws.to_int_number (m / 256 % 256) (omega arith),
    laws.to_int_number (m % 256) (omega arith),
    laws.to_int_number (n / 16777216) (omega arith),
    laws.to_int_number (n / 65536 % 256) (omega arith),
    laws.to_int_number (n / 256 % 256) (omega arith),
    laws.to_int_number (n % 256) (omega arith),
    lex_last up (m % 256) (n % 256),
    lex_1 up m n,
    lex_2 up m n,
    lex_3 up m n,
  )
