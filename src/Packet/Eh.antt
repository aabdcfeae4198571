-- ===== src/Packet/Eh.antt =====
-- Struct_in.h, e_H: the Ethernet header at offset `o` of a packet. A field is read when the source
-- reads it.
use mini_wireshark.Base.{ℕ, ◌+◌, List, [], ◌∷◌, Option, some, ◌>>=◌}
use mini_wireshark.Packet.Memory.{Bytes, Endian, read8, load16}

-- sizeof(e_H)
abbrev pub size : ℕ
size = 14

unfoldable pub mac : Bytes → ℕ → Option (List ℕ)
mac p i = do
  a ← read8 p i
  b ← read8 p (i + 1)
  c ← read8 p (i + 2)
  d ← read8 p (i + 3)
  e ← read8 p (i + 4)
  f ← read8 p (i + 5)
  some (a ∷ b ∷ c ∷ d ∷ e ∷ f ∷ [])

unfoldable pub ether_dhost : Bytes → ℕ → Option (List ℕ)
ether_dhost p o = mac p o

unfoldable pub ether_shost : Bytes → ℕ → Option (List ℕ)
ether_shost p o = mac p (o + 6)

unfoldable pub ether_type : Endian → Bytes → ℕ → Option ℕ
ether_type e p o = load16 e p (o + 12)
