-- ===== src/Pcap/Tree/Start.antt =====
-- Pcap.cpp, Pcap::start_tree_md: the whole tree. The source replaces the shown tree by the new
-- root first, and fills it then; what is modelled is the tree that is shown at the end.
use mini_wireshark.Base.{ℕ, ◌+◌, ◌*◌, List, [], ◌∷◌, Option, none, some, ◌==◌, if◌then◌else◌, ◌>>=◌}
use mini_wireshark.Qt.{qs, Qt}
use mini_wireshark.Packet.Memory.{Bytes, Endian}
use mini_wireshark.Packet.Eh
use mini_wireshark.Packet.Rows.{DumpData}
use mini_wireshark.Pcap.State.{Pcap}
use mini_wireshark.Pcap.Dumps.{find_dump}
use mini_wireshark.Pcap.Tree.Item.{Item, node}
use mini_wireshark.Pcap.Tree.Ether.{ether_item}
use mini_wireshark.Pcap.Tree.Ip.{IpFields, ip_fields, ip_item}
use mini_wireshark.Pcap.Tree.Tcp.{tcp_fields, tcp_item}
use mini_wireshark.Pcap.Tree.Others.{udp_item, icmp_item}

-- The part behind the IP header, for the three protocols that are known.
unfoldable pub transport_items : Endian → Qt → Bytes → IpFields → Option (List Item)
transport_items e q p f =
    if f.protocol == 6
    then (do t ← tcp_fields e p (Eh.size + f.ihl * 4); some (tcp_item q t ∷ []))
    else if f.protocol == 17
    then (do u ← udp_item e q p (Eh.size + f.ihl * 4); some (u ∷ []))
    else if f.protocol == 1
    then (do i ← icmp_item q p (Eh.size + f.ihl * 4); some (i ∷ []))
    else some []

unfoldable pub packet_tree : Endian → Qt → Bytes → Option Item
packet_tree e q p = do
  ether ← ether_item e q p
  f ← ip_fields e p
  transport ← transport_items e q p f
  some (node (qs "root") (ether ∷ ip_item q f ∷ transport))

-- With no such packet the source reads the empty default value.
unfoldable pub content_of : Option DumpData → Bytes
content_of none = []
content_of (some d) = d.content

unfoldable pub start_tree_md : Endian → Qt → Pcap → ℕ → Option Item
start_tree_md e q s idx = packet_tree e q (content_of (find_dump s idx))
