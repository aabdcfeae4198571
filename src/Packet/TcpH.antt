-- ===== src/Packet/TcpH.antt =====
-- Struct_in.h, tcp_H: the TCP header at offset `o` of a packet.
use mini_wireshark.Base.{ℕ, ◌+◌, Option, some, ◌>>=◌}
use mini_wireshark.Packet.Memory.{Bytes, Endian, load16, load32, bits}

-- sizeof(tcp_H)
abbrev pub size : ℕ
size = 20

unfoldable pub source : Endian → Bytes → ℕ → Option ℕ
source e p o = load16 e p o

unfoldable pub dest : Endian → Bytes → ℕ → Option ℕ
dest e p o = load16 e p (o + 2)

unfoldable pub seq : Endian → Bytes → ℕ → Option ℕ
seq e p o = load32 e p (o + 4)

unfoldable pub ack_seq : Endian → Bytes → ℕ → Option ℕ
ack_seq e p o = load32 e p (o + 8)

-- A bit field of the uint16_t at offset 12.
unfoldable pub field : Endian → Bytes → ℕ → ℕ → ℕ → ℕ → Option ℕ
field e p o l b k = do w ← load16 e p (o + 12); some (bits e w l b k)

unfoldable pub res1 : Endian → Bytes → ℕ → Option ℕ
unfolding field
res1 e p o = field e p o 1 256 16

unfoldable pub doff : Endian → Bytes → ℕ → Option ℕ
unfolding field
doff e p o = field e p o 16 4096 16

unfoldable pub fin : Endian → Bytes → ℕ → Option ℕ
unfolding field
fin e p o = field e p o 256 1 2

unfoldable pub syn : Endian → Bytes → ℕ → Option ℕ
unfolding field
syn e p o = field e p o 512 2 2

unfoldable pub rst : Endian → Bytes → ℕ → Option ℕ
unfolding field
rst e p o = field e p o 1024 4 2

unfoldable pub psh : Endian → Bytes → ℕ → Option ℕ
unfolding field
psh e p o = field e p o 2048 8 2

unfoldable pub ack : Endian → Bytes → ℕ → Option ℕ
unfolding field
ack e p o = field e p o 4096 16 2

unfoldable pub urg : Endian → Bytes → ℕ → Option ℕ
unfolding field
urg e p o = field e p o 8192 32 2

unfoldable pub ece : Endian → Bytes → ℕ → Option ℕ
unfolding field
ece e p o = field e p o 16384 64 2

unfoldable pub cwr : Endian → Bytes → ℕ → Option ℕ
unfolding field
cwr e p o = field e p o 32768 128 2

unfoldable pub window : Endian → Bytes → ℕ → Option ℕ
window e p o = load16 e p (o + 14)
