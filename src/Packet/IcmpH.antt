-- ===== src/Packet/IcmpH.antt =====
-- Struct_in.h, icmp_H: the ICMP header at offset `o` of a packet. Of the union only `echo` is used.
use mini_wireshark.Base.{ℕ, ◌+◌, Option}
use mini_wireshark.Packet.Memory.{Bytes, Endian, read8, load16}

-- sizeof(icmp_H)
abbrev pub size : ℕ
size = 8

unfoldable pub type : Bytes → ℕ → Option ℕ
type p o = read8 p o

unfoldable pub code : Bytes → ℕ → Option ℕ
code p o = read8 p (o + 1)

unfoldable pub echo_id : Endian → Bytes → ℕ → Option ℕ
echo_id e p o = load16 e p (o + 4)

unfoldable pub echo_sequence : Endian → Bytes → ℕ → Option ℕ
echo_sequence e p o = load16 e p (o + 6)
