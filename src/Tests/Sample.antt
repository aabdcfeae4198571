-- ===== src/Tests/Sample.antt =====
-- Text and socket functions that meet the laws which the development states of Qt's and libc's.
use mini_wireshark.Base.{
  ℕ, zero, suc, ◌+◌, ◌-◌, ◌*◌, ◌/◌, ◌%◌, ◌<◌, ◌≡◌, refl, ap, Bool, true, false, ◌&&◌, ◌||◌, List,
  [], ◌∷◌, ◌++◌, map, arith, length, ltb, leb, ◌==◌, if◌then◌else◌, replicate, ==_iff, le→ltb, not,
  append_assoc, append-nil,
}
use mini_wireshark.Base.Int.{ℤ, pos, negsuc}
use mini_wireshark.Qt.{QString, qs, Qt}
use mini_wireshark.Pcap.Hex.Text.{HexLaws, hex_digit, hex_byte, hex_offset}
use mini_wireshark.Capture.Address.{AddressLaws}

-- Digits in a base, at least `width` of them.
unfoldable pub plain : ℕ → ℕ → ℕ → QString
plain zero base n = []
plain (suc fuel) base n =
    let rest : QString = plain fuel base (n / base) ++ hex_digit (n % base) ∷ [] in
    if n == 0 then [] else rest

unfoldable pub digits : ℕ → ℕ → ℕ → QString
digits base zero n = plain 32 base n
digits base (suc width) n = digits base width (n / base) ++ hex_digit (n % base) ∷ []

unfoldable pub number : ℤ → QString
number (pos n) = digits 10 1 n
number (negsuc n) = b'-' ∷ digits 10 1 (n + 1)

-- The first place marker is replaced.
unfoldable pub replace_marker : QString → QString → QString
replace_marker [] a = []
replace_marker (c ∷ []) a = c ∷ []
replace_marker (c ∷ d ∷ rest) a =
    let later : QString = c ∷ replace_marker (d ∷ rest) a in if c == b'%' then a ++ rest else later

unfoldable pub parse : ℕ → QString → ℕ
parse acc [] = acc
parse acc (c ∷ s) = parse (acc * 10 + (c - b'0')) s

unfoldable pub to_int : QString → ℤ
to_int [] = pos 0
to_int (c ∷ s) = if c == b'-' then negsuc (parse 0 s - 1) else pos (parse 0 (c ∷ s))

-- The text up to the next separator, and the fields behind it.
unfoldable pub split_from : QString → QString → ℕ → List QString
split_from [] field sep = field ∷ []
split_from (c ∷ s) field sep =
    let next : List QString = field ∷ split_from s [] sep in
    let more : List QString = split_from s (field ++ c ∷ []) sep in if c == sep then next else more

unfoldable pub split : QString → ℕ → List QString
split s sep = split_from s [] sep

unfoldable pub join : List QString → QString → QString
join [] sep = []
join (s ∷ []) sep = s
join (s ∷ t ∷ ss) sep = s ++ (sep ++ join (t ∷ ss) sep)

unfoldable pub inet_ntoa : List ℕ → QString
inet_ntoa ns = join (map (λ k. number (pos k)) ns) (qs ".")

unfoldable pub starts_with : QString → QString → Bool
starts_with s [] = true
starts_with [] (p ∷ ps) = false
starts_with (c ∷ s) (p ∷ ps) = c == p && starts_with s ps

unfoldable pub contains : QString → QString → Bool
contains [] p = starts_with [] p
contains (c ∷ s) p = starts_with (c ∷ s) p || contains s p

unfoldable pub upper : ℕ → ℕ
upper c = if leb b'a' c && leb c b'z' then c - 32 else c

unfoldable pub lower : ℕ → ℕ
lower c = if leb b'A' c && leb c b'Z' then c + 32 else c

unfoldable pub left_justified : QString → ℕ → ℕ → QString
left_justified s w c = if ltb (length s) w then s ++ replicate (w - length s) c else s

-- A width of 0 and of 1 are the same: a number has a digit.
unfoldable pub at_least_one : ℕ → ℕ
at_least_one zero = 1
at_least_one (suc n) = suc n

abbrev pub sample : Qt
sample = record {
  number = number;
  number_base = λ n b. digits b 1 n;
  arg = replace_marker;
  arg_int = λ f n. replace_marker f (number n);
  arg_width = λ f n w b c. replace_marker f (digits b (at_least_one w) n);
  to_upper = map upper;
  to_lower = map lower;
  left_justified = left_justified;
  right_justified = λ s w c. replicate (w - length s) c ++ s;
  split = split;
  join = join;
  to_int = to_int;
  starts_with = starts_with;
  contains = contains;
  inet_ntoa = inet_ntoa;
}

digits_two : (c : ℕ) → c < 256 → digits 16 2 c ≡ hex_byte c
unfolding digits plain hex_byte
digits_two c h =
    let done : c / 16 / 16 ≡ 0 = omega arith in
    let high : c / 16 % 16 ≡ c / 16 = omega arith in rw (done, high)

digits_four : (i : ℕ) → i < 65536 → digits 16 4 i ≡ hex_offset i
unfolding digits plain hex_offset
digits_four i h =
    let done : i / 16 / 16 / 16 / 16 ≡ 0 = omega arith in
    let a : i / 16 / 16 / 16 % 16 ≡ i / 4096 = omega arith in
    let b : i / 16 / 16 % 16 ≡ i / 256 % 16 = omega arith in rw (done, a, b)

pub sample-HexLaws : HexLaws sample
unfolding at_least_one replace_marker qs left_justified
sample-HexLaws = record {
  offset = λ i h. ap (λ s. s ++ qs "   ") (digits_four i h);
  cell = λ c h. ap (λ s. s ++ qs " ") (digits_two c h);
  wide = λ s w c h. rw (le→ltb (length s) w h);
}

is_pos : ℤ → ℕ → Bool
is_pos (pos n) k = n == k
is_pos (negsuc n) k = false

is_pos-eq : (z : ℤ) (k : ℕ) → is_pos z k ≡ true → z ≡ pos k
unfolding is_pos
is_pos-eq (pos n) k h = ap pos ((==_iff n k).0 h)
is_pos-eq (negsuc n) k h = cc

-- No separator in a text.
no_dot : QString → Bool
no_dot [] = true
no_dot (c ∷ s) = not (c == b'.') && no_dot s

-- A decimal number is read back, and its text holds no separator.
abbrev reads_back : ℕ → Bool
reads_back k = is_pos (to_int (number (pos k))) k && no_dot (number (pos k))

octets_read_back : ℕ → Bool
octets_read_back zero = true
octets_read_back (suc top) = octets_read_back top && reads_back top

octets_table : octets_read_back 256 ≡ true
unfolding octets_read_back is_pos to_int number digits plain hex_digit parse no_dot
octets_table = refl

reads_back_under : (k top : ℕ) → k < top → octets_read_back top ≡ true → reads_back k ≡ true
unfolding octets_read_back
reads_back_under k zero below table = absurd (omega arith)
reads_back_under k (suc top) below table = ground (arith, reads_back_under k top)

octet : (k : ℕ) → k < 256 → (to_int (number (pos k)) ≡ pos k) × (no_dot (number (pos k)) ≡ true)
octet k h =
    let both : reads_back k ≡ true = reads_back_under k 256 h octets_table in
    (is_pos-eq _ k (ground arith), ground arith)

split_from-last :
    (s field : QString) → no_dot s ≡ true → split_from s field b'.' ≡ (field ++ s) ∷ []
unfolding split_from no_dot
split_from-last [] field h = rw (append-nil field)
split_from-last (c ∷ s) field h =
    ground (arith, split_from-last s (field ++ c ∷ []), append_assoc field (c ∷ []) s)

split_from-dot :
    (s t field : QString)
    → no_dot s ≡ true
    → split_from (s ++ b'.' ∷ t) field b'.' ≡ (field ++ s) ∷ split_from t [] b'.'
unfolding split_from no_dot
split_from-dot [] t field h = rw (append-nil field)
split_from-dot (c ∷ s) t field h =
    ground (arith, split_from-dot s t (field ++ c ∷ []), append_assoc field (c ∷ []) s)

pub sample-AddressLaws : AddressLaws sample
unfolding inet_ntoa split join qs
sample-AddressLaws = record {
  split_inet_ntoa = λ n h. rw (
    split_from-dot (number (pos (n / 16777216))) _ [] (octet _ (omega arith)).1,
    split_from-dot (number (pos (n / 65536 % 256))) _ [] (octet _ (omega arith)).1,
    split_from-dot (number (pos (n / 256 % 256))) _ [] (octet _ (omega arith)).1,
    split_from-last (number (pos (n % 256))) [] (octet _ (omega arith)).1,
  );
  to_int_number = λ k h. (octet k h).0;
}
