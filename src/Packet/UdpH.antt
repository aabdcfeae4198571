-- ===== src/Packet/UdpH.antt =====
-- Struct_in.h, udp_H: the UDP header at offset `o` of a packet.
use mini_wireshark.Base.{ℕ, ◌+◌, Option}
use mini_wireshark.Packet.Memory.{Bytes, Endian, load16}

-- sizeof(udp_H)
abbrev pub size : ℕ
size = 8

unfoldable pub source : Endian → Bytes → ℕ → Option ℕ
source e p o = load16 e p o

unfoldable pub dest : Endian → Bytes → ℕ → Option ℕ
dest e p o = load16 e p (o + 2)

unfoldable pub len : Endian → Bytes → ℕ → Option ℕ
len e p o = load16 e p (o + 4)
