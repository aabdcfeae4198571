-- ===== src/Pcap/Tree/Fields.antt =====
-- The fields that the tree shows, against the wire format.
use mini_wireshark.Base.{
  ℕ, ◌+◌, ◌-◌, ◌*◌, ◌/◌, ◌%◌, ◌<◌, ◌≤◌, ◌≡◌, [], ◌∷◌, ◌++◌, some, arith, length,
}
use mini_wireshark.Qt.{qs}
use mini_wireshark.Packet.Memory.{
  Bytes, Endian, AreBytes, byte, byte-lt, be16, be32, quad, read8-some, load16-some, load32-some,
  load_addr-some, ntohs-word16, ntohl-word32,
}
use mini_wireshark.Packet.IpH
use mini_wireshark.Packet.TcpH
use mini_wireshark.Packet.Laws.{
  ihl-some, version-some, doff-some, res1-some, fin-some, syn-some, rst-some, psh-some, ack-some,
  urg-some, ece-some, cwr-some,
}
use mini_wireshark.Worker.Wire.{words, tcp_words, tcp_flag, payload}
use mini_wireshark.Pcap.Checksum.Laws.{words_sum, ones_fold, compute_ip_checksum-ones}
use mini_wireshark.Pcap.Tree.Ip.{IpFields, ip_fields, dscp_name}
use mini_wireshark.Pcap.Tree.Tcp.{TcpFields, tcp_fields, flag_value}

unfoldable pub wire_tcp : Bytes → ℕ → TcpFields
wire_tcp p o = record {
  source = be16 p o;
  dest = be16 p (o + 2);
  seq = be32 p (o + 4);
  ack_seq = be32 p (o + 8);
  res1 = byte p (o + 12) % 16;
  doff = tcp_words p o;
  fin = tcp_flag p o 1;
  syn = tcp_flag p o 2;
  rst = tcp_flag p o 4;
  psh = tcp_flag p o 8;
  ack = tcp_flag p o 16;
  urg = tcp_flag p o 32;
  ece = tcp_flag p o 64;
  cwr = tcp_flag p o 128;
  window = be16 p (o + 14);
  payload = payload p o;
}

unfoldable pub wire_ip : Bytes → IpFields
wire_ip p = record {
  saddr = quad p 26;
  daddr = quad p 30;
  version = byte p 14 / 16;
  ihl = words p;
  tos = byte p 15;
  tot_len = be16 p 16;
  id = be16 p 18;
  frag_off = be16 p 20;
  ttl = byte p 22;
  protocol = byte p 23;
  check = be16 p 24;
  ret_check = 65535 - ones_fold (words_sum p 14 (words p * 2));
}

module _ (e : Endian) (p : Bytes) (bytes : AreBytes p) (big : 34 ≤ length p) where
  -- The TCP fields of the tree are those of the wire format, the payload length among them, for a
  -- packet of bytes that holds the fixed parts of the IP and the TCP header.
  pub tcp_fields-wire : (o : ℕ) → o + 20 ≤ length p → tcp_fields e p o ≡ some (wire_tcp p o)
  unfolding tcp_fields wire_tcp IpH.tot_len TcpH.source TcpH.dest TcpH.seq TcpH.ack_seq TcpH.window
  tcp_fields-wire o h = rw (
    load16-some e p 16 (omega arith),
    ihl-some e p 14 bytes (omega arith),
    doff-some e p o bytes (omega arith),
    load16-some e p o (omega arith),
    load16-some e p (o + 2) (omega arith),
    load32-some e p (o + 4) (omega arith),
    load32-some e p (o + 8) (omega arith),
    cwr-some e p o bytes (omega arith),
    ece-some e p o bytes (omega arith),
    urg-some e p o bytes (omega arith),
    ack-some e p o bytes (omega arith),
    psh-some e p o bytes (omega arith),
    rst-some e p o bytes (omega arith),
    syn-some e p o bytes (omega arith),
    fin-some e p o bytes (omega arith),
    res1-some e p o bytes (omega arith),
    load16-some e p (o + 14) (omega arith),
    ntohs-word16 e p 16 bytes,
    ntohs-word16 e p o bytes,
    ntohs-word16 e p (o + 2) bytes,
    ntohl-word32 e p (o + 4) bytes,
    ntohl-word32 e p (o + 8) bytes,
    ntohs-word16 e p (o + 14) bytes,
  )

  -- The IPv4 fields of the tree are those of the wire format, with the one's complement of the
  -- header's sum, for a packet of bytes that holds the IP header with its options.
  pub ip_fields-wire : 14 + words p * 4 ≤ length p → ip_fields e p ≡ some (wire_ip p)
  unfolding ip_fields wire_ip IpH.saddr IpH.daddr IpH.tos IpH.tot_len IpH.id IpH.frag_off IpH.ttl
      IpH.protocol IpH.check
  ip_fields-wire h =
      let rounds : words p * 4 ≡ words p * 2 * 2 = omega arith in
      rw (
        load_addr-some p 26 (omega arith),
        load_addr-some p 30 (omega arith),
        version-some e p 14 bytes (omega arith),
        ihl-some e p 14 bytes (omega arith),
        read8-some p 15 (omega arith),
        load16-some e p 16 (omega arith),
        load16-some e p 18 (omega arith),
        load16-some e p 20 (omega arith),
        read8-some p 22 (omega arith),
        read8-some p 23 (omega arith),
        load16-some e p 24 (omega arith),
        rounds,
        compute_ip_checksum-ones p 14 (words p * 2) bytes (omega arith) (omega arith),
        ntohs-word16 e p 16 bytes,
        ntohs-word16 e p 18 bytes,
        ntohs-word16 e p 20 bytes,
        ntohs-word16 e p 24 bytes,
      )

-- The eight flag bits put together are the flag byte of the TCP header.
pub flag_value-byte :
    (p : Bytes) (o : ℕ) → AreBytes p → flag_value (wire_tcp p o) ≡ byte p (o + 12 + 1)
unfolding flag_value wire_tcp
flag_value-byte p o bytes = omega (arith, byte-lt p (o + 12 + 1) bytes)

-- The class shown for a TOS byte is CS and the number of its three high bits.
pub dscp_name-class :
    (tos : ℕ) → tos < 256 → dscp_name (tos / 4) ≡ qs "CS" ++ (b'0' + tos / 32) ∷ []
unfolding dscp_name qs
dscp_name-class tos h = ground arith
