-- ===== src/Pcap/Tree/Ether.antt =====
-- Pcap.cpp, Pcap::start_tree_md: the Ethernet part; and Pcap::macToString.
use mini_wireshark.Base.{ℕ, List, [], ◌∷◌, Option, some, ◌==◌, if◌then◌else◌, ◌>>=◌}
use mini_wireshark.Qt.{QString, qs, Qt}
use mini_wireshark.Packet.Memory.{Bytes, Endian, ntohs}
use mini_wireshark.Packet.Eh
use mini_wireshark.Pcap.Tree.Item.{Item, node, leaf}

-- The markers are replaced one after the other, from %1 to %6.
unfoldable pub fill_mac : Qt → QString → List ℕ → QString
fill_mac q format [] = format
fill_mac q format (b ∷ bs) = fill_mac q (q.arg_width format b 2 16 b'0') bs

unfoldable pub mac_to_string : Qt → List ℕ → QString
unfolding fill_mac
mac_to_string q mac = q.to_upper (fill_mac q (qs "%1:%2:%3:%4:%5:%6") mac)

unfoldable pub type_title : ℕ → QString
type_title ether_type =
    if ether_type == 0x0800
    then qs "Type: IPv4 (0x0800)"
    else if ether_type == 0x86dd
    then qs "Type: IPv6 (0x086DD)"
    else if ether_type == 0x0806
    then qs "Type: ARP (0x0806)"
    else []

unfoldable pub ether_item : Endian → Qt → Bytes → Option Item
unfolding mac_to_string type_title
ether_item e q p = do
  dhost ← Eh.ether_dhost p 0
  shost ← Eh.ether_shost p 0
  ether_type ← Eh.ether_type e p 0
  let dst : QString = mac_to_string q dhost
  let src : QString = mac_to_string q shost
  some (
      node (q.arg (q.arg (qs "Ethernet II,    Src: %1,    Dst : %2") dst) src) (
        leaf (q.arg (qs "Destination : (%1)") dst)
        ∷ leaf (q.arg (qs "Source : (%1)") src)
        ∷ leaf (type_title (ntohs e ether_type))
        ∷ []))
