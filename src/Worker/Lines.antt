-- ===== src/Worker/Lines.antt =====
-- The info column of each protocol equals its wire description, where the bytes are in the buffer.
use mini_wireshark.Base.{
  ℕ, ◌+◌, ◌*◌, ◌≤◌, ◌<◌, ◌≡◌, some, arith, length, [], ◌∷◌, ◌++◌, String, ◌==◌, if◌then◌else◌, ◌/◌,
  ◌%◌, append-nil, refl,
}
use mini_wireshark.Base.Int.{sub_ℕ}
use mini_wireshark.Qt.{Qt, QString, qs}
use mini_wireshark.Packet.Memory.{
  Bytes, Endian, AreBytes, byte, byte-lt, be16, read8-some, load16-some, load32-some, ntohs-word16,
  ntohl-word32,
}
use mini_wireshark.Packet.IpH
use mini_wireshark.Packet.TcpH
use mini_wireshark.Packet.UdpH
use mini_wireshark.Packet.IcmpH
use mini_wireshark.Packet.Laws.{
  ihl-some, doff-some, fin-some, syn-some, rst-some, psh-some, ack-some, urg-some, ece-some,
  cwr-some,
}
use mini_wireshark.Worker.Info.{
  tcp_flags, tcp_info, udp_info, icmp_info, icmp_rest, icmp_echo, payload_len, mark, when,
  flag_text, icmp_name, unreachable_code, exceeded_code,
}
use mini_wireshark.Worker.Wire.{
  table, message_types, marked, words, tcp_words, flags_shown, tcp_line, udp_line, echo_line,
  icmp_tail, icmp_line, icmp_needs,
}

-- For a 16-bit total length and 4-bit header lengths, the payload length that the source computes
-- by an unsigned subtraction and stores in an int is the integer difference, also where negative.
pub payload_len-difference :
    (tot ihl doff : ℕ)
    → tot < 65536
    → ihl < 16
    → doff < 16
    → payload_len tot ihl (doff * 4) ≡ sub_ℕ tot (ihl * 4 + doff * 4)
unfolding payload_len
payload_len-difference tot ihl doff ht hi hd = ground arith

mark-append :
    (v : ℕ) (name : String) (rest : QString)
    → mark v name ++ rest ≡ (if v == 0 then rest else qs name ++ rest)
unfolding mark
mark-append v name rest = ground arith

flag_text-marked :
    (b : ℕ)
    → flag_text (b / 2 % 2) (b / 16 % 2) (b / 1 % 2) (b / 4 % 2) (b / 8 % 2) (b / 32 % 2)
      ≡ qs "   [ "
        ++ marked b (
            (2, "SYN ")
            ∷ (16, "ACK ")
            ∷ (1, "FIN ")
            ∷ (4, "RST ")
            ∷ (8, "PSH ")
            ∷ (32, "URG ")
            ∷ [])
unfolding flag_text
flag_text-marked b =
    rw
      (
        mark-append (b / 32 % 2) "URG ",
        mark-append (b / 8 % 2) "PSH ",
        mark-append (b / 4 % 2) "RST ",
        mark-append (b / 1 % 2) "FIN ",
        mark-append (b / 16 % 2) "ACK ",
        mark-append (b / 2 % 2) "SYN ",
      )
      refl

icmp_name-table : (type : ℕ) → icmp_name type ≡ table message_types type ++ qs "   "
unfolding icmp_name when
icmp_name-table type = ground arith

unreachable_code-table :
    (code : ℕ)
    → unreachable_code code
      ≡ table
          ((0, "Network Unreachable") ∷ (1, "Host Unreachable") ∷ (3, "Port Unreachable") ∷ [])
          code
unfolding unreachable_code when
unreachable_code-table code =
    ground (arith, append-nil (qs "Network Unreachable"), append-nil (qs "Host Unreachable"))

exceeded_code-table :
    (code : ℕ)
    → exceeded_code code
      ≡ table ((0, "TTL exceeded") ∷ (1, "fragment reassembly time exceeded") ∷ []) code
unfolding exceeded_code when
exceeded_code-table code = ground (arith, append-nil (qs "TTL exceeded"))

icmp_needs_pos : (type : ℕ) → 0 < icmp_needs type
unfolding icmp_needs
icmp_needs_pos type = ground arith

module _ (e : Endian) (q : Qt) (p : Bytes) (o : ℕ) (bytes : AreBytes p) where
  pub tcp_flags-some : o + 20 ≤ length p → tcp_flags e p o ≡ some (flags_shown p o)
  unfolding tcp_flags flags_shown
  tcp_flags-some h = rw (
    fin-some e p o bytes (omega arith),
    syn-some e p o bytes (omega arith),
    rst-some e p o bytes (omega arith),
    psh-some e p o bytes (omega arith),
    ack-some e p o bytes (omega arith),
    urg-some e p o bytes (omega arith),
    ece-some e p o bytes (omega arith),
    cwr-some e p o bytes (omega arith),
    flag_text-marked (byte p (o + 12 + 1)),
  )

  pub be16-lt : (i : ℕ) → be16 p i < 65536
  unfolding be16
  be16-lt i = omega (arith, byte-lt p i bytes, byte-lt p (i + 1) bytes)

  pub tcp_info-some :
      o + 20 ≤ length p → 34 ≤ length p → tcp_info e q p 14 o ≡ some (tcp_line q p o)
  unfolding tcp_info tcp_line TcpH.source TcpH.dest TcpH.seq TcpH.ack_seq TcpH.window IpH.tot_len
  tcp_info-some h h' = rw (
    load16-some e p o (omega arith),
    load16-some e p (o + 2) (omega arith),
    doff-some e p o bytes (omega arith),
    tcp_flags-some h,
    load32-some e p (o + 4) (omega arith),
    load32-some e p (o + 8) (omega arith),
    load16-some e p (o + 14) (omega arith),
    load16-some e p 16 (omega arith),
    ihl-some e p 14 bytes (omega arith),
    ntohs-word16 e p o bytes,
    ntohs-word16 e p (o + 2) bytes,
    ntohl-word32 e p (o + 4) bytes,
    ntohl-word32 e p (o + 8) bytes,
    ntohs-word16 e p (o + 14) bytes,
    ntohs-word16 e p 16 bytes,
    payload_len-difference (be16 p 16) (words p) (tcp_words p o) (be16-lt 16) (omega arith)
        (omega (arith, byte-lt p (o + 12) bytes)),
  )

  pub udp_info-some : o + 6 ≤ length p → udp_info e q p o ≡ some (udp_line q p o)
  unfolding udp_info udp_line UdpH.source UdpH.dest UdpH.len
  udp_info-some h = rw (
    load16-some e p o (omega arith),
    load16-some e p (o + 2) (omega arith),
    load16-some e p (o + 4) (omega arith),
    ntohs-word16 e p o bytes,
    ntohs-word16 e p (o + 2) bytes,
    ntohs-word16 e p (o + 4) bytes,
  )

  icmp_echo-some : o + 8 ≤ length p → 34 ≤ length p → icmp_echo e q p 14 o ≡ some (echo_line q p o)
  unfolding icmp_echo echo_line IcmpH.echo_id IcmpH.echo_sequence IpH.ttl
  icmp_echo-some h h' = rw (
    load16-some e p (o + 4) (omega arith),
    load16-some e p (o + 6) (omega arith),
    read8-some p 22 (omega arith),
    ntohs-word16 e p (o + 4) bytes,
    ntohs-word16 e p (o + 6) bytes,
  )

  code-some : o + 2 ≤ length p → IcmpH.code p o ≡ some (byte p (o + 1))
  unfolding IcmpH.code
  code-some h = read8-some p (o + 1) (omega arith)

  icmp_rest-some :
      o + icmp_needs (byte p o) ≤ length p
      → 34 ≤ length p
      → icmp_rest e q p 14 o (byte p o) ≡ some (icmp_tail q p o)
  unfolding icmp_rest icmp_tail icmp_needs
  icmp_rest-some h h' = ground (
    arith,
    code-some,
    icmp_echo-some,
    unreachable_code-table (byte p (o + 1)),
    exceeded_code-table (byte p (o + 1)),
  )

  pub icmp_info-some :
      o + icmp_needs (byte p o) ≤ length p
      → 34 ≤ length p
      → icmp_info e q p 14 o ≡ some (icmp_line q p o)
  unfolding icmp_info icmp_line IcmpH.type
  icmp_info-some h h' = rw (
    read8-some p o (omega (arith, icmp_needs_pos (byte p o))),
    icmp_rest-some h h',
    icmp_name-table (byte p o),
  )
