-- ===== src/Pcap/Tree/Wire.antt =====
-- The lines of the tree, from the bytes of the packet in network order.
use mini_wireshark.Base.{
  ℕ, ◌+◌, ◌-◌, ◌*◌, ◌/◌, ◌%◌, String, List, [], ◌∷◌, ◌++◌, ◌==◌, if◌then◌else◌,
}
use mini_wireshark.Base.Int.{pos}
use mini_wireshark.Qt.{QString, qs, Qt}
use mini_wireshark.Packet.Memory.{Bytes, byte, be16, be32, quad}
use mini_wireshark.Worker.Wire.{table, words, behind, tcp_words, payload}
use mini_wireshark.Pcap.Checksum.Laws.{words_sum, ones_fold}
use mini_wireshark.Pcap.Tree.Item.{Item, node, leaf}

-- The text for a number.
abbrev pub decimal : Qt → ℕ → QString
decimal q n = q.number (pos n)

-- A line with one text in it.
abbrev pub line : Qt → String → QString → Item
line q format value = leaf (q.arg (qs format) value)

-- Six bytes from an offset, as pairs of hexadecimal digits between colons.
abbrev pub wire_mac : Qt → Bytes → ℕ → QString
wire_mac q p o =
    let put : QString → ℕ → QString = λ format k. q.arg_width format (byte p (o + k)) 2 16 b'0' in
    q.to_upper (put (put (put (put (put (put (qs "%1:%2:%3:%4:%5:%6") 0) 1) 2) 3) 4) 5)

-- Destination at 0, source at 6, type at 12. The title says Src for the destination, and Dst for the
-- source.
unfoldable pub wire_ether : Qt → Bytes → Item
wire_ether q p =
    node
      (q.arg (q.arg (qs "Ethernet II,    Src: %1,    Dst : %2") (wire_mac q p 0)) (wire_mac q p 6))
      (line q "Destination : (%1)" (wire_mac q p 0)
        ∷ line q "Source : (%1)" (wire_mac q p 6)
        ∷ leaf (
            table
              ((2048, "Type: IPv4 (0x0800)")
                ∷ (34525, "Type: IPv6 (0x086DD)")
                ∷ (2054, "Type: ARP (0x0806)")
                ∷ [])
              (be16 p 12))
        ∷ [])

unfoldable pub wire_udp : Qt → Bytes → ℕ → Item
wire_udp q p o =
    node
      (q.arg
        (q.arg (qs "User Datagram Protocol, Src Prot: %1,    Dst Port: %2") (decimal q (be16 p o)))
        (decimal q (be16 p (o + 2))))
      (line q "Source Port: %1" (decimal q (be16 p o))
        ∷ line q "Destination Port: %1" (decimal q (be16 p (o + 2)))
        ∷ line q "Length: %1" (decimal q (be16 p (o + 4)))
        ∷ [])

unfoldable pub wire_icmp : Qt → Bytes → ℕ → Item
wire_icmp q p o = node (qs "Internet Control Message Protocol") (
    leaf (
      table
        ((0, "Echo Reply")
          ∷ (3, "Destination Unreachable")
          ∷ (5, "Redirect")
          ∷ (8, "Echo Request")
          ∷ (11, "Time Exceeded")
          ∷ [])
        (byte p o))
    ∷ line q "code: %1" (decimal q (byte p (o + 1)))
    ∷ [])

-- The names of the bits that are set, from the lowest on.
unfoldable pub names_of : ℕ → List String → List QString
names_of flags [] = []
names_of flags (name ∷ more) =
    let rest : List QString = names_of (flags / 2) more in
    if flags % 2 == 0 then rest else qs name ∷ rest

abbrev pub set_line : ℕ → String → Item
set_line bit name = leaf (if bit == 0 then qs name ++ qs ": Not set" else qs name ++ qs ": Set")

-- The flag byte stands at 13 of the TCP header.
unfoldable pub wire_flags : Qt → Bytes → ℕ → Item
wire_flags q p o =
    let flags : ℕ = byte p (o + 12 + 1) in
    let reserved : ℕ = byte p (o + 12) % 16 in
    node
      (q.arg (q.arg_width (qs "Flags: 0x%1 (%2)") flags 4 16 b'0') (
        q.join (names_of flags ("FIN" ∷ "SYN" ∷ "RST" ∷ "PSH" ∷ "ACK" ∷ "URG" ∷ "ECE" ∷ "CWR" ∷ []))
          (qs ", ")))
      (leaf (
          if reserved == 0
          then qs "Reserved: Not set"
          else q.arg_int (qs "Reserved: Set (%1)") (pos reserved))
        ∷ set_line (flags / 128 % 2) "Congestion Window Reduced (CWR)"
        ∷ set_line (flags / 64 % 2) "ECN Echo (ECE)"
        ∷ set_line (flags / 32 % 2) "Urgent (URG)"
        ∷ set_line (flags / 16 % 2) "Acknowledgment (ACK)"
        ∷ set_line (flags / 8 % 2) "Push (PSH)"
        ∷ set_line (flags / 4 % 2) "Reset (RST)"
        ∷ set_line (flags / 2 % 2) "Syn (SYN)"
        ∷ set_line (flags % 2) "Fin (FIN)"
        ∷ [])

unfoldable pub wire_tcp_lines : Qt → Bytes → ℕ → Item
wire_tcp_lines q p o =
    let src : QString = decimal q (be16 p o) in
    let dst : QString = decimal q (be16 p (o + 2)) in
    let seq : QString = decimal q (be32 p (o + 4)) in
    let ack : QString = decimal q (be32 p (o + 8)) in
    let len : QString = q.number (payload p o) in
    let title : QString =
      qs "Transmission Control Protocol, Src Port: %1, Dst Port: %2, Seq: %3, Ack: %4, Len: %5" in
    node (q.arg (q.arg (q.arg (q.arg (q.arg title src) dst) seq) ack) len) (
      line q "Source Port: %1" src
      ∷ line q "Destination Port: %1" dst
      ∷ line q "[Tcp Segment Len: %1]" len
      ∷ line q "Sequence Number: %1" seq
      ∷ line q "Acknowledgment Number: %1" ack
      ∷ line q "Header Length: %1" (decimal q (tcp_words p o * 4))
      ∷ wire_flags q p o
      ∷ leaf (q.arg_int (qs "Window: %1") (pos (be16 p (o + 14))))
      ∷ [])

-- The class of a TOS byte is CS and the number of its three high bits.
abbrev pub class_name : ℕ → QString
class_name tos = qs "CS" ++ (b'0' + tos / 32) ∷ []

abbrev pub congestion_name : ℕ → QString
congestion_name = table ((0, "Not-ECT") ∷ (1, "ECT(1)") ∷ (2, "ECT(0)") ∷ (3, "CE") ∷ [])

unfoldable pub wire_tos : Qt → ℕ → Item
wire_tos q tos =
    let hex : QString =
      q.arg (qs "0x%1") (q.right_justified (q.to_upper (q.number_base tos 16)) 2 b'0') in
    let title : QString = qs "Differentiated Services Field: %1 (DSCP: %2, ECN: %3)" in
    node (q.arg (q.arg (q.arg title hex) (class_name tos)) (congestion_name (tos % 4))) (
      leaf (
        q.arg_int (q.arg (qs "Differentiated Services Codepoint: %1 (%2)") (class_name tos))
          (pos (tos / 4)))
      ∷ leaf (
          q.arg_int
            (q.arg (qs "Explicit Congestion Notification: %1 (%2)") (congestion_name (tos % 4)))
            (pos (tos % 4)))
      ∷ [])

-- The flags are the three high bits of the word with the fragment offset: reserved, DF and MF.
unfoldable pub wire_fragment : Qt → ℕ → Item
wire_fragment q word =
    let state : ℕ → QString = λ bit. if bit == 0 then qs "Not Set" else qs "Set" in
    let meaning : QString =
      if word / 16384 % 2 == 1
      then qs "Don't fragment"
      else if word / 8192 % 2 == 1
      then qs "More fragments"
      else qs "None" in
    node (q.arg (q.arg_width (qs "Flags: 0x%1, %2") (word / 8192) 0 16 b' ') meaning) (
      line q "Reserved bit: %1" (state (word / 32768 % 2))
      ∷ line q "Don't fragment: %1" (state (word / 16384 % 2))
      ∷ line q "More fragments: %1" (state (word / 8192 % 2))
      ∷ [])

-- Good where the words of the header add up, with carries, to sixteen ones.
abbrev pub verdict : Bytes → QString
verdict p = if 65535 - ones_fold (words_sum p 14 (words p * 2)) == 0 then qs "Good" else qs "Bad"

unfoldable pub wire_ip_lines : Qt → Bytes → Item
wire_ip_lines q p =
    let src : QString = q.inet_ntoa (quad p 26) in
    let dst : QString = q.inet_ntoa (quad p 30) in
    let version : ℕ = byte p 14 / 16 in
    let title : QString = qs "Internet Protocol Version %1,    Src: %2,    Dst: %3" in
    node (q.arg (q.arg (q.arg_int title (pos version)) src) dst) (
      leaf (q.arg_int (qs "Version: %1") (pos version))
      ∷ leaf (
          q.arg_int (q.arg_int (qs "Header Length: %1    bytes (%2)") (pos (words p * 4)))
            (pos (words p)))
      ∷ wire_tos q (byte p 15)
      ∷ leaf (q.arg_int (qs "Total Length: %1") (pos (be16 p 16)))
      ∷ leaf (
          q.arg_int (q.arg_width (qs "Identification: 0x%1 (%2)") (be16 p 18) 4 16 b'0')
            (pos (be16 p 18)))
      ∷ wire_fragment q (be16 p 20)
      ∷ leaf (q.arg_int (qs "Time to Live: %1") (pos (byte p 22)))
      ∷ line q "Protocol: %1"
          (table ((6, "TCP (6)") ∷ (17, "UDP (17)") ∷ (1, "ICMP (1)") ∷ []) (byte p 23))
      ∷ leaf
          (q.arg (q.arg_width (qs "Header Checksum: 0x%1 [%2]") (be16 p 24) 4 16 b'0') (verdict p))
      ∷ line q "[Header checksum status: %1]" (verdict p)
      ∷ line q "Source Address: %1" src
      ∷ line q "Destination Address: %1" dst
      ∷ [])

-- The part behind the IP header.
unfoldable pub wire_transport : Qt → Bytes → List Item
wire_transport q p =
    if byte p 23 == 6
    then wire_tcp_lines q p (behind p) ∷ []
    else if byte p 23 == 17
    then wire_udp q p (behind p) ∷ []
    else if byte p 23 == 1
    then wire_icmp q p (behind p) ∷ []
    else []

unfoldable pub wire_parts : Qt → Bytes → List Item
wire_parts q p = wire_ether q p ∷ wire_ip_lines q p ∷ wire_transport q p
