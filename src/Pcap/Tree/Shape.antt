-- ===== src/Pcap/Tree/Shape.antt =====
-- When start_tree_md builds a tree, and what hangs under its root.
use mini_wireshark.Base.{ℕ, ◌+◌, ◌<◌, ◌≤◌, ◌≡◌, [], none, some, arith, length}
use mini_wireshark.Qt.{qs, Qt}
use mini_wireshark.Packet.Memory.{Bytes, Endian, AreBytes, byte, read8-none}
use mini_wireshark.Packet.Eh
use mini_wireshark.Worker.Wire.{behind}
use mini_wireshark.Pcap.State.{Pcap}
use mini_wireshark.Pcap.Dumps.{find_dump}
use mini_wireshark.Pcap.Tree.Item.{node}
use mini_wireshark.Pcap.Tree.Ether.{ether_item}
use mini_wireshark.Pcap.Tree.Start.{transport_items, packet_tree, content_of, start_tree_md}
use mini_wireshark.Pcap.Tree.Wire.{wire_transport, wire_parts}
use mini_wireshark.Pcap.Tree.Lines.{
  ether_item-wire, ip_item-wire, tcp_item-wire, udp_item-wire, icmp_item-wire,
}
use mini_wireshark.Pcap.Tree.Fields.{wire_ip, ip_fields-wire, tcp_fields-wire}

-- The packet holds what the tree reads of it.
pub record IsTreeComplete (p : Bytes) : Type 0 where
  pub ip : 34 ≤ length p
  pub options : behind p ≤ length p
  pub tcp : byte p 23 ≡ 6 → behind p + 20 ≤ length p
  pub udp : byte p 23 ≡ 17 → behind p + 6 ≤ length p
  pub icmp : byte p 23 ≡ 1 → behind p + 2 ≤ length p

module _ (e : Endian) (q : Qt) (p : Bytes) (bytes : AreBytes p) (full : IsTreeComplete p) where
  transport_items-wire : transport_items e q p (wire_ip p) ≡ some (wire_transport q p)
  unfolding transport_items wire_transport wire_ip
  transport_items-wire = ground (
    arith,
    full.tcp,
    full.udp,
    full.icmp,
    tcp_fields-wire e p bytes full.ip (behind p),
    tcp_item-wire e q p bytes (behind p),
    udp_item-wire e q p bytes (behind p),
    icmp_item-wire e q p bytes (behind p),
  )

  -- A packet of bytes that holds the headers which the tree reads has a tree. It is the Ethernet
  -- part, the IPv4 part and, for TCP, UDP or ICMP, the part of that header, and for any other
  -- protocol no third one; each line of each part, and each title, is the text that the wire format
  -- gives from the bytes in network order. The Ethernet title alone has the addresses the wrong way
  -- round: its Src is the destination.
  pub packet_tree-wire : packet_tree e q p ≡ some (node (qs "root") (wire_parts q p))
  unfolding packet_tree wire_parts
  packet_tree-wire = rw (
    ether_item-wire e q p bytes (omega (arith, full.ip)),
    ip_fields-wire e p bytes full.ip full.options,
    ip_item-wire e q p bytes,
    transport_items-wire,
  )

-- Without the Ethernet header at hand the source reads outside of the data.
packet_tree-none : (e : Endian) (q : Qt) (p : Bytes) → length p < 6 → packet_tree e q p ≡ none
unfolding packet_tree ether_item Eh.ether_dhost Eh.mac
packet_tree-none e q p h = ground (arith, read8-none p 5)

-- For a number that no stored packet has, start_tree_md reads through the data pointer of an empty
-- array: the model faults.
pub start_tree_md-none :
    (e : Endian) (q : Qt) (s : Pcap) (idx : ℕ)
    → find_dump s idx ≡ none
    → start_tree_md e q s idx ≡ none
unfolding start_tree_md content_of
start_tree_md-none e q s idx h = rw (h, content_of) (packet_tree-none e q [] (omega arith))
