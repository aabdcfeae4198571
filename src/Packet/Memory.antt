-- ===== src/Packet/Memory.antt =====
-- Reads from a packet buffer, as the source makes them through pointers to the packed structs of
-- Struct_in.h. The byte order of the host is a parameter: PlatformCompat.h chooses between the
-- two layouts of the bit fields by MINI_WIRESHARK_LITTLE_ENDIAN.
use mini_wireshark.Base.{
  ℕ, ◌+◌, ◌*◌, ◌/◌, ◌%◌, ◌<◌, ◌≤◌, ◌≡◌, refl, List, [], ◌∷◌, Option, none, some, arith, length,
  get_elem?, get_or, get_elem?-get_or, get_elem?-none, ◌>>=◌, Option-cases, zero, suc, inl, inr,
}

abbrev pub Bytes : Type 0
Bytes = List ℕ

-- MINI_WIRESHARK_LITTLE_ENDIAN: 1 is `little`, 0 is `big`.
pub data Endian : Type 0 where
  little big : Endian

-- A read of one byte; outside of the buffer it is a fault.
unfoldable pub read8 : Bytes → ℕ → Option ℕ
read8 p i = get_elem? p i

unfoldable pub combine16 : Endian → ℕ → ℕ → ℕ
combine16 little a b = a + b * 256
combine16 big a b = a * 256 + b

unfoldable pub combine32 : Endian → ℕ → ℕ → ℕ → ℕ → ℕ
combine32 little a b c d = a + b * 256 + c * 65536 + d * 16777216
combine32 big a b c d = a * 16777216 + b * 65536 + c * 256 + d

-- A native load of a uint16_t field.
unfoldable pub load16 : Endian → Bytes → ℕ → Option ℕ
load16 e p i = do a ← read8 p i; b ← read8 p (i + 1); some (combine16 e a b)

-- A native load of a uint32_t field.
unfoldable pub load32 : Endian → Bytes → ℕ → Option ℕ
load32 e p i = do
  a ← read8 p i
  b ← read8 p (i + 1)
  c ← read8 p (i + 2)
  d ← read8 p (i + 3)
  some (combine32 e a b c d)

-- The four bytes of an `in_addr`.
unfoldable pub load_addr : Bytes → ℕ → Option (List ℕ)
load_addr p i = do
  a ← read8 p i
  b ← read8 p (i + 1)
  c ← read8 p (i + 2)
  d ← read8 p (i + 3)
  some (a ∷ b ∷ c ∷ d ∷ [])

-- Network order to host order.
unfoldable pub ntohs : Endian → ℕ → ℕ
ntohs little x = x % 256 * 256 + x / 256 % 256
ntohs big x = x

unfoldable pub ntohl : Endian → ℕ → ℕ
ntohl little x =
    x % 256 * 16777216 + x / 256 % 256 * 65536 + x / 65536 % 256 * 256 + x / 16777216 % 256
ntohl big x = x

-- A bit field: the bits from weight `l` (little-endian layout) or `b` (big-endian layout) up, of
-- as many bits as there are values below `k`.
unfoldable pub bits : Endian → ℕ → ℕ → ℕ → ℕ → ℕ
bits little w l b k = w / l % k
bits big w l b k = w / b % k

-- Every element is a byte.
abbrev pub AreBytes : Bytes → Type 0
AreBytes [] = Unit
AreBytes (x ∷ xs) = (x < 256) × AreBytes xs

-- Independent readings of a buffer, in network order.
abbrev pub byte : Bytes → ℕ → ℕ
byte p i = get_or p i 0

unfoldable pub be16 : Bytes → ℕ → ℕ
be16 p i = byte p i * 256 + byte p (i + 1)

unfoldable pub be32 : Bytes → ℕ → ℕ
be32 p i = byte p i * 16777216 + byte p (i + 1) * 65536 + byte p (i + 2) * 256 + byte p (i + 3)

unfoldable pub quad : Bytes → ℕ → List ℕ
quad p i = byte p i ∷ byte p (i + 1) ∷ byte p (i + 2) ∷ byte p (i + 3) ∷ []

pub byte-lt : (p : Bytes) (i : ℕ) → AreBytes p → byte p i < 256
byte-lt [] i h = omega arith
byte-lt (x ∷ xs) zero h = h.0
byte-lt (x ∷ xs) (suc i) h = byte-lt xs i h.1

pub read8-some : (p : Bytes) (i : ℕ) → i < length p → read8 p i ≡ some (byte p i)
unfolding read8
read8-some p i h = get_elem?-get_or p i 0 h

pub read8-none : (p : Bytes) (i : ℕ) → length p ≤ i → read8 p i ≡ none
unfolding read8
read8-none p i h = get_elem?-none p i h

-- What a load leaves in a register.
unfoldable pub word16 : Endian → Bytes → ℕ → ℕ
word16 e p i = combine16 e (byte p i) (byte p (i + 1))

unfoldable pub word32 : Endian → Bytes → ℕ → ℕ
word32 e p i = combine32 e (byte p i) (byte p (i + 1)) (byte p (i + 2)) (byte p (i + 3))

pub load16-some :
    (e : Endian) (p : Bytes) (i : ℕ) → i + 2 ≤ length p → load16 e p i ≡ some (word16 e p i)
unfolding load16 word16
load16-some e p i h = rw (read8-some p i (omega arith), read8-some p (i + 1) (omega arith))

pub load32-some :
    (e : Endian) (p : Bytes) (i : ℕ) → i + 4 ≤ length p → load32 e p i ≡ some (word32 e p i)
unfolding load32 word32
load32-some e p i h = rw (
  read8-some p i (omega arith),
  read8-some p (i + 1) (omega arith),
  read8-some p (i + 2) (omega arith),
  read8-some p (i + 3) (omega arith),
)

pub load_addr-some : (p : Bytes) (i : ℕ) → i + 4 ≤ length p → load_addr p i ≡ some (quad p i)
unfolding load_addr quad
load_addr-some p i h = rw (
  read8-some p i (omega arith),
  read8-some p (i + 1) (omega arith),
  read8-some p (i + 2) (omega arith),
  read8-some p (i + 3) (omega arith),
)

-- A load that reaches past the end of the buffer faults.
pub load16-none : (e : Endian) (p : Bytes) (i : ℕ) → length p < i + 2 → load16 e p i ≡ none
unfolding load16
load16-none e p i h = elim (Option-cases (read8 p i)) [
  | inl n ↦ rw n
  | inr (a, s) ↦ rw (s, read8-none p (i + 1) (omega arith))
]

-- Load and `ntohs` together read network order, on either host.
pub ntohs-word16 : (e : Endian) (p : Bytes) (i : ℕ) → AreBytes p → ntohs e (word16 e p i) ≡ be16 p i
unfolding ntohs word16 combine16 be16
ntohs-word16 little p i h = omega (arith, byte-lt p i h, byte-lt p (i + 1) h)
ntohs-word16 big p i h = refl

pub ntohl-word32 : (e : Endian) (p : Bytes) (i : ℕ) → AreBytes p → ntohl e (word32 e p i) ≡ be32 p i
unfolding ntohl word32 combine32 be32
ntohl-word32 little p i h =
    omega (arith, byte-lt p i h, byte-lt p (i + 1) h, byte-lt p (i + 2) h, byte-lt p (i + 3) h)
ntohl-word32 big p i h = refl
