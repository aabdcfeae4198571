-- ===== src/Packet/IpH.antt =====
-- Struct_in.h, ip_H: the IPv4 header at offset `o` of a packet.
use mini_wireshark.Base.{ℕ, ◌+◌, List, Option, some, ◌>>=◌}
use mini_wireshark.Packet.Memory.{Bytes, Endian, read8, load16, load_addr, bits}

-- sizeof(ip_H)
abbrev pub size : ℕ
size = 20

-- The two bit fields share the first byte; the layouts list them in opposite orders.
unfoldable pub ihl : Endian → Bytes → ℕ → Option ℕ
ihl e p o = do b ← read8 p o; some (bits e b 1 1 16)

unfoldable pub version : Endian → Bytes → ℕ → Option ℕ
version e p o = do b ← read8 p o; some (bits e b 16 16 16)

unfoldable pub tos : Bytes → ℕ → Option ℕ
tos p o = read8 p (o + 1)

unfoldable pub tot_len : Endian → Bytes → ℕ → Option ℕ
tot_len e p o = load16 e p (o + 2)

unfoldable pub id : Endian → Bytes → ℕ → Option ℕ
id e p o = load16 e p (o + 4)

unfoldable pub frag_off : Endian → Bytes → ℕ → Option ℕ
frag_off e p o = load16 e p (o + 6)

unfoldable pub ttl : Bytes → ℕ → Option ℕ
ttl p o = read8 p (o + 8)

unfoldable pub protocol : Bytes → ℕ → Option ℕ
protocol p o = read8 p (o + 9)

unfoldable pub check : Endian → Bytes → ℕ → Option ℕ
check e p o = load16 e p (o + 10)

unfoldable pub saddr : Bytes → ℕ → Option (List ℕ)
saddr p o = load_addr p (o + 12)

unfoldable pub daddr : Bytes → ℕ → Option (List ℕ)
daddr p o = load_addr p (o + 16)
