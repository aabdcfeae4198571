-- ===== src/Pcap/Tree/Others.antt =====
-- Pcap.cpp, Pcap::start_tree_md: the UDP and ICMP parts. `o` is the offset of the header.
use mini_wireshark.Base.{ℕ, [], ◌∷◌, Option, some, ◌==◌, if◌then◌else◌, ◌>>=◌}
use mini_wireshark.Base.Int.{pos}
use mini_wireshark.Qt.{QString, qs, Qt}
use mini_wireshark.Packet.Memory.{Bytes, Endian, ntohs}
use mini_wireshark.Packet.UdpH
use mini_wireshark.Packet.IcmpH
use mini_wireshark.Pcap.Tree.Item.{Item, node, leaf}

unfoldable pub udp_item : Endian → Qt → Bytes → ℕ → Option Item
udp_item e q p o = do
  source ← UdpH.source e p o
  dest ← UdpH.dest e p o
  len ← UdpH.len e p o
  let src : QString = q.number (pos (ntohs e source))
  let dst : QString = q.number (pos (ntohs e dest))
  some (
      node (q.arg (q.arg (qs "User Datagram Protocol, Src Prot: %1,    Dst Port: %2") src) dst) (
        leaf (q.arg (qs "Source Port: %1") src)
        ∷ leaf (q.arg (qs "Destination Port: %1") dst)
        ∷ leaf (q.arg (qs "Length: %1") (q.number (pos (ntohs e len))))
        ∷ []))

unfoldable pub icmp_type_name : ℕ → QString
icmp_type_name type =
    if type == 0
    then qs "Echo Reply"
    else if type == 3
    then qs "Destination Unreachable"
    else if type == 5
    then qs "Redirect"
    else if type == 8
    then qs "Echo Request"
    else if type == 11
    then qs "Time Exceeded"
    else []

unfoldable pub icmp_item : Qt → Bytes → ℕ → Option Item
icmp_item q p o = do
  type ← IcmpH.type p o
  code ← IcmpH.code p o
  some (
      node (qs "Internet Control Message Protocol")
        (leaf (icmp_type_name type) ∷ leaf (q.arg (qs "code: %1") (q.number (pos code))) ∷ []))
