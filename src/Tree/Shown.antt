-- ===== src/Tree/Shown.antt =====
-- The header tree of a stored packet, as the view shows it.
use mini_wireshark.Base.{ℕ, ◌≡◌, some, ◌>>=◌, arith}
use mini_wireshark.Qt.{qs, Qt}
use mini_wireshark.Packet.Memory.{Endian, AreBytes}
use mini_wireshark.Packet.Rows.{DumpData}
use mini_wireshark.Pcap.State.{Pcap}
use mini_wireshark.Pcap.Dumps.{find_dump}
use mini_wireshark.Pcap.Tree.Item.{items}
use mini_wireshark.Pcap.Tree.Wire.{wire_parts}
use mini_wireshark.Pcap.Tree.Shape.{IsTreeComplete, packet_tree-wire}
use mini_wireshark.Pcap.Tree.Start.{start_tree_md, content_of}
use mini_wireshark.Tree.Model.{invalid, TreeModel}
use mini_wireshark.Tree.View.{read_below, levels}
use mini_wireshark.Tree.Owner.{Owns, show_tree, show_tree-read_below}

-- A click on a row whose packet is stored, is of bytes and holds the headers that the tree reads, in
-- a model whose nodes are the shown tree or deleted once: the tree is built and shown, and a view
-- that walks the model reads the Ethernet part, the IPv4 part and, for TCP, UDP or ICMP, the part of
-- that header, each with all the lines that the wire format gives, in their order.
pub start_tree_md-read_below :
    (e : Endian) (q : Qt) (s : Pcap) (idx : ℕ) (m : TreeModel) (d : DumpData)
    → Owns m
    → find_dump s idx ≡ some d
    → AreBytes d.content
    → IsTreeComplete d.content
    → (shown : TreeModel) × ((start_tree_md e q s idx >>= show_tree m) ≡ some shown)
      × (read_below (levels (items (wire_parts q d.content))) shown invalid
          ≡ some (items (wire_parts q d.content)))
unfolding start_tree_md content_of
start_tree_md-read_below e q s idx m d owns found bytes full =
    let kids = items (wire_parts q d.content) in
    let (shown, is, read, _, _) =
      show_tree-read_below m owns (qs "root") kids (levels kids) (omega arith) in
    (shown, rw (found, packet_tree-wire e q d.content bytes full) is, read)
