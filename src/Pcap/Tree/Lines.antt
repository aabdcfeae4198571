-- ===== src/Pcap/Tree/Lines.antt =====
-- Each part that start_tree_md builds has the lines of Wire.
use mini_wireshark.Base.{
  ℕ, ◌+◌, ◌/◌, ◌%◌, ◌<◌, ◌≤◌, ◌≡◌, refl, [], ◌∷◌, some, arith, length, String, List,
}
use mini_wireshark.Qt.{QString, Qt}
use mini_wireshark.Packet.Memory.{
  Bytes, Endian, AreBytes, byte, byte-lt, be16, read8-some, load16-some, ntohs-word16,
}
use mini_wireshark.Packet.Eh
use mini_wireshark.Packet.UdpH
use mini_wireshark.Packet.IcmpH
use mini_wireshark.Pcap.Tree.Ether.{ether_item, mac_to_string, fill_mac, type_title}
use mini_wireshark.Pcap.Tree.Ip.{
  ecn_name, tos_item, flag_meaning, set_or_not, frag_flags, flag_item, proto_name, check_name,
  ip_item,
}
use mini_wireshark.Pcap.Tree.Tcp.{named, flag_names, flag_leaf, reserved_leaf, flags_item, tcp_item}
use mini_wireshark.Pcap.Tree.Others.{udp_item, icmp_type_name, icmp_item}
use mini_wireshark.Pcap.Tree.Fields.{wire_tcp, wire_ip, flag_value-byte, dscp_name-class}
use mini_wireshark.Pcap.Tree.Wire.{
  names_of, wire_ether, wire_udp, wire_icmp, wire_flags, wire_tcp_lines, congestion_name, wire_tos,
  wire_fragment, wire_ip_lines,
}

-- One name more.
named-names_of :
    (flag n : ℕ) (name : String) (more : List String) (rest : List QString)
    → flag ≡ n % 2
    → rest ≡ names_of (n / 2) more
    → named flag name rest ≡ names_of n (name ∷ more)
unfolding named names_of
named-names_of flag n name more rest bit same = rw (bit, same) refl

congestion_name-ecn_name : (n : ℕ) → ecn_name n ≡ congestion_name n
unfolding ecn_name
congestion_name-ecn_name n = ground arith

be16-lt : (p : Bytes) (i : ℕ) → AreBytes p → be16 p i < 65536
unfolding be16
be16-lt p i bytes = omega (arith, byte-lt p i bytes, byte-lt p (i + 1) bytes)

module _ (e : Endian) (q : Qt) (p : Bytes) (bytes : AreBytes p) where
  pub ether_item-wire : 14 ≤ length p → ether_item e q p ≡ some (wire_ether q p)
  unfolding ether_item wire_ether mac_to_string fill_mac type_title Eh.ether_dhost Eh.ether_shost
      Eh.mac Eh.ether_type
  ether_item-wire h = rw (
    read8-some p 0 (omega arith),
    read8-some p 1 (omega arith),
    read8-some p 2 (omega arith),
    read8-some p 3 (omega arith),
    read8-some p 4 (omega arith),
    read8-some p 5 (omega arith),
    read8-some p 6 (omega arith),
    read8-some p 7 (omega arith),
    read8-some p 8 (omega arith),
    read8-some p 9 (omega arith),
    read8-some p 10 (omega arith),
    read8-some p 11 (omega arith),
    load16-some e p 12 (omega arith),
    ntohs-word16 e p 12 bytes,
  )

  pub udp_item-wire : (o : ℕ) → o + 6 ≤ length p → udp_item e q p o ≡ some (wire_udp q p o)
  unfolding udp_item wire_udp UdpH.source UdpH.dest UdpH.len
  udp_item-wire o h = rw (
    load16-some e p o (omega arith),
    load16-some e p (o + 2) (omega arith),
    load16-some e p (o + 4) (omega arith),
    ntohs-word16 e p o bytes,
    ntohs-word16 e p (o + 2) bytes,
    ntohs-word16 e p (o + 4) bytes,
  )

  pub icmp_item-wire : (o : ℕ) → o + 2 ≤ length p → icmp_item q p o ≡ some (wire_icmp q p o)
  unfolding icmp_item wire_icmp icmp_type_name IcmpH.type IcmpH.code
  icmp_item-wire o h = rw (read8-some p o (omega arith), read8-some p (o + 1) (omega arith))

  flag_names-wire :
      (o : ℕ)
      → flag_names (wire_tcp p o)
        ≡ names_of
            (byte p (o + 12 + 1))
            ("FIN" ∷ "SYN" ∷ "RST" ∷ "PSH" ∷ "ACK" ∷ "URG" ∷ "ECE" ∷ "CWR" ∷ [])
  unfolding flag_names wire_tcp names_of
  flag_names-wire o =
      let b : ℕ = byte p (o + 12 + 1) in
      named-names_of _ (b) "FIN" ("SYN" ∷ "RST" ∷ "PSH" ∷ "ACK" ∷ "URG" ∷ "ECE" ∷ "CWR" ∷ []) _
        (omega arith)
        (named-names_of _ (b / 2) "SYN" ("RST" ∷ "PSH" ∷ "ACK" ∷ "URG" ∷ "ECE" ∷ "CWR" ∷ []) _
          (omega arith)
          (named-names_of _ (b / 2 / 2) "RST" ("PSH" ∷ "ACK" ∷ "URG" ∷ "ECE" ∷ "CWR" ∷ []) _
            (omega arith)
            (named-names_of _ (b / 2 / 2 / 2) "PSH" ("ACK" ∷ "URG" ∷ "ECE" ∷ "CWR" ∷ []) _
              (omega arith)
              (named-names_of _ (b / 2 / 2 / 2 / 2) "ACK" ("URG" ∷ "ECE" ∷ "CWR" ∷ []) _
                (omega arith)
                (named-names_of _ (b / 2 / 2 / 2 / 2 / 2) "URG" ("ECE" ∷ "CWR" ∷ []) _ (omega arith)
                  (named-names_of _ (b / 2 / 2 / 2 / 2 / 2 / 2) "ECE" ("CWR" ∷ []) _ (omega arith) (
                    named-names_of _ (b / 2 / 2 / 2 / 2 / 2 / 2 / 2) "CWR" ([]) _ (omega arith)
                      (refl))))))))

  flags_item-wire : (o : ℕ) → flags_item q (wire_tcp p o) ≡ wire_flags q p o
  unfolding flags_item wire_flags flag_leaf reserved_leaf wire_tcp
  flags_item-wire o =
      let one : byte p (o + 12 + 1) / 1 ≡ byte p (o + 12 + 1) = omega arith in
      rw (flag_names-wire o, flag_value-byte p o bytes, one) refl

  pub tcp_item-wire : (o : ℕ) → tcp_item q (wire_tcp p o) ≡ wire_tcp_lines q p o
  unfolding tcp_item wire_tcp_lines wire_tcp
  tcp_item-wire o = rw (flags_item-wire o) refl

  tos_item-wire : (tos : ℕ) → tos < 256 → tos_item q tos ≡ wire_tos q tos
  unfolding tos_item wire_tos
  tos_item-wire tos h = rw (dscp_name-class tos h, congestion_name-ecn_name (tos % 4)) refl

  flag_item-wire : (word : ℕ) → word < 65536 → flag_item q (frag_flags word) ≡ wire_fragment q word
  unfolding flag_item wire_fragment frag_flags flag_meaning set_or_not
  flag_item-wire word h =
      let small : word % 65536 ≡ word = omega arith in
      let df : word / 8192 / 2 ≡ word / 16384 = omega arith in
      let reserved : word / 8192 / 4 ≡ word / 32768 = omega arith in rw (small, df, reserved) refl

  pub ip_item-wire : ip_item q (wire_ip p) ≡ wire_ip_lines q p
  unfolding ip_item wire_ip_lines wire_ip proto_name check_name
  ip_item-wire =
      rw
        (
          tos_item-wire (byte p 15) (byte-lt p 15 bytes),
          flag_item-wire (be16 p 20) (be16-lt p 20 bytes),
        )
        refl
