-- ===== src/Tests/TreeTests.antt =====
-- The tree, the interface list and the searches at concrete inputs.
use mini_wireshark.Base.{◌≡◌, refl, List, [], ◌∷◌, none, some, arith}
use mini_wireshark.Qt.{qs}
use mini_wireshark.Packet.Memory.{little, big}
use mini_wireshark.Pcap.State.{new_pcap}
use mini_wireshark.Pcap.Dumps.{find_dump, search_in, find_loop}
use mini_wireshark.Pcap.Tree.Item.{node}
use mini_wireshark.Pcap.Tree.Ip.{ip_fields}
use mini_wireshark.Pcap.Tree.Tcp.{tcp_fields}
use mini_wireshark.Pcap.Tree.Start.{packet_tree, start_tree_md}
use mini_wireshark.Pcap.Tree.Fields.{wire_tcp, wire_ip, tcp_fields-wire, ip_fields-wire}
use mini_wireshark.Pcap.Tree.Wire.{wire_parts}
use mini_wireshark.Pcap.Tree.Shape.{IsTreeComplete, packet_tree-wire, start_tree_md-none}
use mini_wireshark.Packet.Rows.{DumpData}
use mini_wireshark.Pcap.State.{Pcap}
use mini_wireshark.Pcap.Tree.Item.{items}
use mini_wireshark.Base.{◌>>=◌}
use mini_wireshark.Tree.Model.{TreeModel, invalid}
use mini_wireshark.Tree.View.{read_below, levels}
use mini_wireshark.Tree.Model.{new_tree_model}
use mini_wireshark.Tree.Owner.{show_tree, new_tree_model-Owns}
use mini_wireshark.Tree.Shown.{start_tree_md-read_below}
use mini_wireshark.Tests.PacketTests.{tcp_record}
use mini_wireshark.NicList.{Device, set_nic, op_any}
use mini_wireshark.NicList.Laws.{of_kind, set_nic-of_kind}
use mini_wireshark.Tests.Sample.{sample}
use mini_wireshark.Tests.PacketTests.{tcp_packet}

tcp_fields-wire_example : tcp_fields little tcp_packet 34 ≡ some (wire_tcp tcp_packet 34)
tcp_fields-wire_example =
    tcp_fields-wire little tcp_packet (omega arith) (omega arith) 34 (omega arith)

ip_fields-wire_example : ip_fields big tcp_packet ≡ some (wire_ip tcp_packet)
ip_fields-wire_example = ip_fields-wire big tcp_packet (omega arith) (omega arith) (omega arith)

tcp_tree : IsTreeComplete tcp_packet
tcp_tree = record {
  ip = omega arith;
  options = omega arith;
  tcp = λ h. omega arith;
  udp = λ h. omega arith;
  icmp = λ h. omega arith;
}

packet_tree-wire_example :
    packet_tree little sample tcp_packet ≡ some (node (qs "root") (wire_parts sample tcp_packet))
packet_tree-wire_example = packet_tree-wire little sample tcp_packet (omega arith) tcp_tree

start_tree_md-none_example : start_tree_md little sample new_pcap 3 ≡ none
unfolding find_dump search_in find_loop new_pcap
start_tree_md-none_example = start_tree_md-none little sample new_pcap 3 refl

abbrev devices : List Device
devices =
    record { name = some (qs "lo"); description = none; flags = 1 }
    ∷ record { name = none; description = none; flags = 0 }
    ∷ record { name = some (qs "eth0"); description = none; flags = 0 }
    ∷ []

set_nic-of_kind_example :
    set_nic sample ((qs "wlan0", 2) ∷ []) 3 (some devices)
    ≡ of_kind 3 (set_nic sample [] op_any (some devices))
set_nic-of_kind_example =
    set_nic-of_kind sample ((qs "wlan0", 2) ∷ []) [] 3 (some devices) (omega arith)

abbrev stored : DumpData
stored = record { pkt_num = 7; header = tcp_record; content = tcp_packet }

abbrev one_stored : Pcap
one_stored = record new_pcap { vec_dump = stored ∷ [] }

start_tree_md-read_below_example :
    (shown : TreeModel) × ((start_tree_md little sample one_stored 7 >>= show_tree new_tree_model)
      ≡ some shown)
    × (read_below (levels (items (wire_parts sample tcp_packet))) shown invalid
        ≡ some (items (wire_parts sample tcp_packet)))
unfolding find_dump search_in find_loop new_pcap
start_tree_md-read_below_example =
    start_tree_md-read_below little sample one_stored 7 new_tree_model stored new_tree_model-Owns
      refl (omega arith) tcp_tree
