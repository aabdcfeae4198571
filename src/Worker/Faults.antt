-- ===== src/Worker/Faults.antt =====
-- Reads outside of the packet buffer that Worker::my_packet_handler does not guard against: the
-- UDP and ICMP branches check no length of their own, and the copy takes `len` bytes, where the
-- buffer holds `caplen`.
use mini_wireshark.Base.{ℕ, ◌+◌, ◌*◌, ◌<◌, ◌≡◌, none, arith, length, ◌⊎◌, true, inl, inr}
use mini_wireshark.Qt.{Qt, QString}
use mini_wireshark.Packet.Memory.{
  Bytes, Endian, AreBytes, byte, read8-some, read8-none, load16-some, load16-none, ntohs-word16,
}
use mini_wireshark.Packet.Eh
use mini_wireshark.Packet.IpH
use mini_wireshark.Packet.UdpH
use mini_wireshark.Packet.IcmpH
use mini_wireshark.Packet.Rows.{Header, byte_array}
use mini_wireshark.Packet.Laws.{ihl-some}
use mini_wireshark.Worker.Event.{Worker}
use mini_wireshark.Worker.Info.{udp_info, icmp_info, icmp_rest, icmp_echo}
use mini_wireshark.Worker.Handler.{
  row, udp_branch, icmp_branch, branch, ip_part, classify, post, finish, my_packet_handler,
}
use mini_wireshark.Worker.Wire.{words, behind, ip_fits, wire_verdict, icmp_needs, IsComplete}
use mini_wireshark.Worker.Agreement.{classify-wire}

module _ (e : Endian) (q : Qt) (p : Bytes) (o : ℕ) where
  udp_info-none : length p < o + 6 → udp_info e q p o ≡ none
  unfolding udp_info UdpH.source UdpH.dest UdpH.len
  udp_info-none h = ground (arith, load16-none e p (o + 4))

  code-none : length p < o + 2 → IcmpH.code p o ≡ none
  unfolding IcmpH.code
  code-none h = read8-none p (o + 1) (omega arith)

  icmp_echo-none : length p < o + 8 → icmp_echo e q p 14 o ≡ none
  unfolding icmp_echo IcmpH.echo_id IcmpH.echo_sequence
  icmp_echo-none h = ground (arith, load16-none e p (o + 6))

  icmp_info-none : length p < o + icmp_needs (byte p o) → icmp_info e q p 14 o ≡ none
  unfolding icmp_info icmp_rest icmp_needs IcmpH.type
  icmp_info-none h = ground (arith, read8-some p o, read8-none p o, code-none, icmp_echo-none)

module _ (e : Endian) (q : Qt) (wk : Worker) (h : Header) (p : Bytes) (bytes : AreBytes p)
    (cap : h.caplen ≡ length p) where
  classify-branch : ip_fits p ≡ true → classify e q h p ≡ branch e q h p (byte p 23) (words p * 4)
  unfolding classify ip_part Eh.ether_type IpH.protocol
  classify-branch fits =
      ground (
        arith,
        load16-some e p 12,
        ntohs-word16 e p 12 bytes,
        ihl-some e p 14 bytes,
        read8-some p 23,
      )

  -- A UDP packet captured without the first six bytes of its UDP header, and an ICMP packet
  -- captured without the bytes that its type asks for, but with a whole IP header, pass every check
  -- of the handler, which then reads outside of the buffer.
  pub my_packet_handler-none :
      ip_fits p ≡ true
      → ((byte p 23 ≡ 17) × (length p < behind p + 6))
        ⊎ ((byte p 23 ≡ 1) × (length p < behind p + icmp_needs (byte p (behind p))))
      → my_packet_handler e q wk h p ≡ none
  unfolding my_packet_handler branch udp_branch icmp_branch
  my_packet_handler-none fits (inl (is, short)) =
      ground (arith, classify-branch fits, udp_info-none e q p (behind p) short)
  my_packet_handler-none fits (inr (is, short)) =
      ground (arith, classify-branch fits, icmp_info-none e q p (behind p) short)

  -- Every packet that is shown and of which less was captured than its length on the wire is
  -- copied from outside of the buffer.
  pub my_packet_handler_truncated :
      {proto info : QString}
      → IsComplete p
      → wire_verdict q p ≡ row proto info
      → length p < h.len
      → my_packet_handler e q wk h p ≡ none
  unfolding my_packet_handler finish post byte_array
  my_packet_handler_truncated full is cut = ground (arith, classify-wire e q h p bytes cap full)
