-- ===== src/Worker/Handler.antt =====
-- Pcap.cpp, Worker::my_packet_handler: what the capture thread does with one packet.
use mini_wireshark.Base.{
  ℕ, ◌+◌, ◌*◌, List, [], ◌∷◌, ◌++◌, Option, some, ltb, ◌==◌, if◌then◌else◌, not, ◌>>=◌,
}
use mini_wireshark.Qt.{QString, qs, Qt}
use mini_wireshark.Packet.Memory.{Bytes, Endian, ntohs}
use mini_wireshark.Packet.Eh
use mini_wireshark.Packet.IpH
use mini_wireshark.Packet.TcpH
use mini_wireshark.Packet.Rows.{Header, StPkt, DumpData, byte_array, increment}
use mini_wireshark.Worker.Event.{Worker, Event, update_md, dump_push_back}
use mini_wireshark.Worker.Info.{tcp_info, udp_info, icmp_info}

-- An early return, or the protocol and the info of the packet.
pub data Verdict : Type 0 where
  ignored : Verdict
  row : QString → QString → Verdict

-- The TCP branch: `n` is i_ip_len.
unfoldable pub tcp_branch : Endian → Qt → Header → Bytes → ℕ → Option Verdict
tcp_branch e q h p n = if ltb h.caplen (Eh.size + n + TcpH.size) then some ignored else do
  doff ← TcpH.doff e p (Eh.size + n)
  if ltb doff 5
      then some ignored
      else if ltb h.caplen (Eh.size + n + doff * 4)
      then some ignored
      else do info ← tcp_info e q p Eh.size (Eh.size + n); some (row (qs "TCP") info)

unfoldable pub udp_branch : Endian → Qt → Bytes → ℕ → Option Verdict
udp_branch e q p n = do info ← udp_info e q p (Eh.size + n); some (row (qs "UDP") info)

unfoldable pub icmp_branch : Endian → Qt → Bytes → ℕ → Option Verdict
icmp_branch e q p n = do info ← icmp_info e q p Eh.size (Eh.size + n); some (row (qs "ICMP") info)

unfoldable pub branch : Endian → Qt → Header → Bytes → ℕ → ℕ → Option Verdict
branch e q h p protocol n =
    if protocol == 6
    then tcp_branch e q h p n
    else if protocol == 17
    then udp_branch e q p n
    else if protocol == 1
    then icmp_branch e q p n
    else some ignored

-- The IPv4 part: from the length check of the IP header on.
unfoldable pub ip_part : Endian → Qt → Header → Bytes → Option Verdict
ip_part e q h p = if ltb h.caplen (Eh.size + IpH.size) then some ignored else do
  ihl ← IpH.ihl e p Eh.size
  if ltb ihl 5
      then some ignored
      else if ltb h.caplen (Eh.size + ihl * 4)
      then some ignored
      else do protocol ← IpH.protocol p Eh.size; branch e q h p protocol (ihl * 4)

unfoldable pub classify : Endian → Qt → Header → Bytes → Option Verdict
classify e q h p = if ltb h.caplen Eh.size then some ignored else do
  ether_type ← Eh.ether_type e p 0
  if not (ntohs e ether_type == 0x0800) then some ignored else ip_part e q h p

-- From the addresses on: the row and the copy of the packet are posted.
unfoldable pub post :
    Endian → Qt → Worker → Header → Bytes → QString → QString → Option (Worker × List Event)
post e q wk h p proto info = do
  saddr ← IpH.saddr p Eh.size
  daddr ← IpH.daddr p Eh.size
  num ← increment wk.num
  tot_len ← IpH.tot_len e p Eh.size
  content ← byte_array p h.len
  let pkt : StPkt = record {
    num = wk.num;
    src = q.inet_ntoa saddr;
    dst = q.inet_ntoa daddr;
    proto = proto;
    len = ntohs e tot_len + Eh.size;
    info = info;
  }
  let dump : DumpData = record { pkt_num = wk.num; header = h; content = content }
  some (record wk { num = num }, update_md pkt ∷ dump_push_back dump ∷ [])

unfoldable pub finish :
    Endian → Qt → Worker → Header → Bytes → Verdict → Option (Worker × List Event)
finish e q wk h p ignored = some (wk, [])
finish e q wk h p (row proto info) = post e q wk h p proto info

unfoldable pub my_packet_handler :
    Endian → Qt → Worker → Header → Bytes → Option (Worker × List Event)
my_packet_handler e q wk h p = do verdict ← classify e q h p; finish e q wk h p verdict

-- The callbacks of one pcap_loop, for the packets that it captures, with what they post.
unfoldable pub capture_loop :
    Endian → Qt → Worker → List (Header × Bytes) → Option (Worker × List Event)
capture_loop e q wk [] = some (wk, [])
capture_loop e q wk ((h, p) ∷ rest) = do
  (wk', posted) ← my_packet_handler e q wk h p
  (wk'', later) ← capture_loop e q wk' rest
  some (wk'', posted ++ later)
