-- ===== src/Pcap/Checksum.antt =====
-- Pcap.cpp, Pcap::compute_ip_checksum: the internet checksum of an IPv4 header.
pub mod Laws
use mini_wireshark.Base.{
  ℕ, zero, suc, ◌+◌, ◌-◌, ◌*◌, ◌/◌, ◌%◌, ◌^◌, Option, none, some, ltb, ◌==◌, if◌then◌else◌, ◌>>=◌,
}
use mini_wireshark.Packet.Memory.{Bytes, read8}

-- `(data[i] << 8) | data[i + 1]`, where the operands share no bit, stored in a uint16_t.
unfoldable pub word_at : Bytes → ℕ → Option ℕ
word_at p i = do a ← read8 p i; b ← read8 p (i + 1); some ((a * 256 + b) % 65536)

-- The `for`, over a pointer at offset `o`: `rounds` is the number of even indices below header_len.
-- `sum` is a uint32_t.
unfoldable pub sum_loop : Bytes → ℕ → ℕ → ℕ → Option ℕ
sum_loop p o zero sum = some sum
sum_loop p o (suc rounds) sum = do
  word ← word_at p o
  sum_loop p (o + 2) rounds ((sum + word) % 2 ^ 32)

-- The `while`: the carries are added back in. `none` means that the fuel ran out.
unfoldable pub fold_carry : ℕ → ℕ → Option ℕ
fold_carry zero sum = none
fold_carry (suc fuel) sum =
    let rest = fold_carry fuel ((sum % 65536 + sum / 65536) % 2 ^ 32) in
    if sum / 65536 == 0 then some sum else rest

-- `~sum & 0xFFFF`
unfoldable pub complement : ℕ → ℕ
complement sum = 65535 - sum % 65536

abbrev pub carry_fuel : ℕ
carry_fuel = 3

unfoldable pub compute_ip_checksum : Bytes → ℕ → ℕ → Option ℕ
compute_ip_checksum p o header_len = do
  sum ← sum_loop p o ((header_len + 1) / 2) 0
  folded ← fold_carry carry_fuel sum
  some (complement folded)
