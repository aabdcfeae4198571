-- ===== src/Packet/Laws.antt =====
-- The fields of Struct_in.h read in network order, at offsets within the buffer: what the accessors
-- return there, on either layout of the bit fields.
use mini_wireshark.Base.{ℕ, ◌+◌, ◌/◌, ◌%◌, ◌≤◌, ◌≡◌, ap, some, arith, length}
use mini_wireshark.Packet.Memory.{
  Bytes, Endian, little, big, AreBytes, byte, byte-lt, bits, word16, combine16, read8-some,
  load16-some,
}
use mini_wireshark.Packet.IpH
use mini_wireshark.Packet.TcpH

module _ (e : Endian) (p : Bytes) (o : ℕ) (bytes : AreBytes p) where
  pub ihl-some : o + 1 ≤ length p → IpH.ihl e p o ≡ some (byte p o % 16)
  unfolding IpH.ihl bits
  ihl-some h = rw (read8-some p o (omega arith)) (ap some (low e))
    where
      low : (e : Endian) → bits e (byte p o) 1 1 16 ≡ byte p o % 16
      low little = omega arith
      low big = omega arith

  pub version-some : o + 1 ≤ length p → IpH.version e p o ≡ some (byte p o / 16)
  unfolding IpH.version bits
  version-some h = rw (read8-some p o (omega arith)) (ap some (high e))
    where
      high : (e : Endian) → bits e (byte p o) 16 16 16 ≡ byte p o / 16
      high little = omega (arith, byte-lt p o bytes)
      high big = omega (arith, byte-lt p o bytes)

  field-some :
      (l b k v : ℕ)
      → bits e (word16 e p (o + 12)) l b k ≡ v
      → o + 14 ≤ length p
      → TcpH.field e p o l b k ≡ some v
  unfolding TcpH.field
  field-some l b k v f h = rw (load16-some e p (o + 12) (omega arith)) (ap some f)

  pub res1-some : o + 14 ≤ length p → TcpH.res1 e p o ≡ some (byte p (o + 12) % 16)
  unfolding TcpH.res1 bits word16 combine16
  res1-some h = field-some 1 256 16 _ (value e) h
    where
      value : (e : Endian) → bits e (word16 e p (o + 12)) 1 256 16 ≡ byte p (o + 12) % 16
      value little = omega (arith, byte-lt p (o + 12) bytes, byte-lt p (o + 12 + 1) bytes)
      value big = omega (arith, byte-lt p (o + 12) bytes, byte-lt p (o + 12 + 1) bytes)

  pub doff-some : o + 14 ≤ length p → TcpH.doff e p o ≡ some (byte p (o + 12) / 16)
  unfolding TcpH.doff bits word16 combine16
  doff-some h = field-some 16 4096 16 _ (value e) h
    where
      value : (e : Endian) → bits e (word16 e p (o + 12)) 16 4096 16 ≡ byte p (o + 12) / 16
      value little = omega (arith, byte-lt p (o + 12) bytes, byte-lt p (o + 12 + 1) bytes)
      value big = omega (arith, byte-lt p (o + 12) bytes, byte-lt p (o + 12 + 1) bytes)

  pub fin-some : o + 14 ≤ length p → TcpH.fin e p o ≡ some (byte p (o + 12 + 1) / 1 % 2)
  unfolding TcpH.fin bits word16 combine16
  fin-some h = field-some 256 1 2 _ (value e) h
    where
      value : (e : Endian) → bits e (word16 e p (o + 12)) 256 1 2 ≡ byte p (o + 12 + 1) / 1 % 2
      value little = omega (arith, byte-lt p (o + 12) bytes, byte-lt p (o + 12 + 1) bytes)
      value big = omega (arith, byte-lt p (o + 12) bytes, byte-lt p (o + 12 + 1) bytes)

  pub syn-some : o + 14 ≤ length p → TcpH.syn e p o ≡ some (byte p (o + 12 + 1) / 2 % 2)
  unfolding TcpH.syn bits word16 combine16
  syn-some h = field-some 512 2 2 _ (value e) h
    where
      value : (e : Endian) → bits e (word16 e p (o + 12)) 512 2 2 ≡ byte p (o + 12 + 1) / 2 % 2
      value little = omega (arith, byte-lt p (o + 12) bytes, byte-lt p (o + 12 + 1) bytes)
      value big = omega (arith, byte-lt p (o + 12) bytes, byte-lt p (o + 12 + 1) bytes)

  pub rst-some : o + 14 ≤ length p → TcpH.rst e p o ≡ some (byte p (o + 12 + 1) / 4 % 2)
  unfolding TcpH.rst bits word16 combine16
  rst-some h = field-some 1024 4 2 _ (value e) h
    where
      value : (e : Endian) → bits e (word16 e p (o + 12)) 1024 4 2 ≡ byte p (o + 12 + 1) / 4 % 2
      value little = omega (arith, byte-lt p (o + 12) bytes, byte-lt p (o + 12 + 1) bytes)
      value big = omega (arith, byte-lt p (o + 12) bytes, byte-lt p (o + 12 + 1) bytes)

  pub psh-some : o + 14 ≤ length p → TcpH.psh e p o ≡ some (byte p (o + 12 + 1) / 8 % 2)
  unfolding TcpH.psh bits word16 combine16
  psh-some h = field-some 2048 8 2 _ (value e) h
    where
      value : (e : Endian) → bits e (word16 e p (o + 12)) 2048 8 2 ≡ byte p (o + 12 + 1) / 8 % 2
      value little = omega (arith, byte-lt p (o + 12) bytes, byte-lt p (o + 12 + 1) bytes)
      value big = omega (arith, byte-lt p (o + 12) bytes, byte-lt p (o + 12 + 1) bytes)

  pub ack-some : o + 14 ≤ length p → TcpH.ack e p o ≡ some (byte p (o + 12 + 1) / 16 % 2)
  unfolding TcpH.ack bits word16 combine16
  ack-some h = field-some 4096 16 2 _ (value e) h
    where
      value : (e : Endian) → bits e (word16 e p (o + 12)) 4096 16 2 ≡ byte p (o + 12 + 1) / 16 % 2
      value little = omega (arith, byte-lt p (o + 12) bytes, byte-lt p (o + 12 + 1) bytes)
      value big = omega (arith, byte-lt p (o + 12) bytes, byte-lt p (o + 12 + 1) bytes)

  pub urg-some : o + 14 ≤ length p → TcpH.urg e p o ≡ some (byte p (o + 12 + 1) / 32 % 2)
  unfolding TcpH.urg bits word16 combine16
  urg-some h = field-some 8192 32 2 _ (value e) h
    where
      value : (e : Endian) → bits e (word16 e p (o + 12)) 8192 32 2 ≡ byte p (o + 12 + 1) / 32 % 2
      value little = omega (arith, byte-lt p (o + 12) bytes, byte-lt p (o + 12 + 1) bytes)
      value big = omega (arith, byte-lt p (o + 12) bytes, byte-lt p (o + 12 + 1) bytes)

  pub ece-some : o + 14 ≤ length p → TcpH.ece e p o ≡ some (byte p (o + 12 + 1) / 64 % 2)
  unfolding TcpH.ece bits word16 combine16
  ece-some h = field-some 16384 64 2 _ (value e) h
    where
      value : (e : Endian) → bits e (word16 e p (o + 12)) 16384 64 2 ≡ byte p (o + 12 + 1) / 64 % 2
      value little = omega (arith, byte-lt p (o + 12) bytes, byte-lt p (o + 12 + 1) bytes)
      value big = omega (arith, byte-lt p (o + 12) bytes, byte-lt p (o + 12 + 1) bytes)

  pub cwr-some : o + 14 ≤ length p → TcpH.cwr e p o ≡ some (byte p (o + 12 + 1) / 128 % 2)
  unfolding TcpH.cwr bits word16 combine16
  cwr-some h = field-some 32768 128 2 _ (value e) h
    where
      value :
          (e : Endian) → bits e (word16 e p (o + 12)) 32768 128 2 ≡ byte p (o + 12 + 1) / 128 % 2
      value little = omega (arith, byte-lt p (o + 12) bytes, byte-lt p (o + 12 + 1) bytes)
      value big = omega (arith, byte-lt p (o + 12) bytes, byte-lt p (o + 12 + 1) bytes)
