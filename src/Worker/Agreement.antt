-- ===== src/Worker/Agreement.antt =====
-- Worker::my_packet_handler against the wire format: which packets it shows, and what the row says.
use mini_wireshark.Base.{◌*◌, ◌≤◌, ◌≡◌, some, arith, length}
use mini_wireshark.Qt.{Qt}
use mini_wireshark.Packet.Memory.{
  Bytes, Endian, AreBytes, byte, read8-some, load16-some, ntohs-word16,
}
use mini_wireshark.Packet.Eh
use mini_wireshark.Packet.IpH
use mini_wireshark.Packet.Rows.{Header}
use mini_wireshark.Packet.Laws.{ihl-some, doff-some}
use mini_wireshark.Worker.Handler.{tcp_branch, udp_branch, icmp_branch, branch, ip_part, classify}
use mini_wireshark.Worker.Lines.{tcp_info-some, udp_info-some, icmp_info-some}
use mini_wireshark.Worker.Wire.{words, behind, transport, wire_verdict, IsComplete}

module _ (e : Endian) (q : Qt) (h : Header) (p : Bytes) (bytes : AreBytes p)
    (cap : h.caplen ≡ length p) where
  tcp_branch-wire :
      34 ≤ length p
      → byte p 23 ≡ 6
      → tcp_branch e q h p (words p * 4) ≡ some (transport q p (behind p))
  unfolding tcp_branch transport
  tcp_branch-wire big six =
      ground (arith, doff-some e p (behind p) bytes, tcp_info-some e q p (behind p) bytes)

  branch-wire :
      34 ≤ length p
      → IsComplete p
      → branch e q h p (byte p 23) (words p * 4) ≡ some (transport q p (behind p))
  unfolding branch udp_branch icmp_branch transport
  branch-wire big full = ground (
    arith,
    tcp_branch-wire big,
    udp_info-some e q p (behind p) bytes,
    icmp_info-some e q p (behind p) bytes,
    full.udp,
    full.icmp,
  )

  -- A packet of bytes, of which the capture holds what the source reads unchecked, is classified as
  -- the wire format says, with no read outside of the buffer, on either byte order of the host.
  pub classify-wire : IsComplete p → classify e q h p ≡ some (wire_verdict q p)
  unfolding classify ip_part wire_verdict Eh.ether_type IpH.protocol
  classify-wire full = ground (
    arith,
    load16-some e p 12,
    ntohs-word16 e p 12 bytes,
    ihl-some e p 14 bytes,
    read8-some p 23,
    λ (big : 34 ≤ length p). branch-wire big full,
  )
