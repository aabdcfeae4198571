-- ===== src/Pcap/Offline.antt =====
-- Pcap.cpp, Pcap::packet_func: what reading a capture file does with one packet.
use mini_wireshark.Base.{
  ℕ, ◌+◌, ◌*◌, List, [], ◌∷◌, Option, none, some, ltb, ◌==◌, if◌then◌else◌, not, ◌>>=◌,
}
use mini_wireshark.Qt.{QString, qs, Qt}
use mini_wireshark.Packet.Memory.{Bytes, Endian, ntohs}
use mini_wireshark.Packet.Eh
use mini_wireshark.Packet.IpH
use mini_wireshark.Packet.TcpH
use mini_wireshark.Packet.Rows.{Header, StPkt, DumpData, byte_array, increment}
use mini_wireshark.Worker.Handler.{Verdict, ignored, row}
use mini_wireshark.Pcap.State.{Pcap, update_md, dump_push_back}
use mini_wireshark.Pcap.Info.{tcp_info, udp_info, icmp_info}

-- The TCP branch: `n` is i_ip_len.
unfoldable pub tcp_branch : Endian → Qt → Header → Bytes → ℕ → Option Verdict
tcp_branch e q h p n = if ltb h.caplen (Eh.size + n + TcpH.size) then some ignored else do
  doff ← TcpH.doff e p (Eh.size + n)
  if ltb doff 5
      then some ignored
      else if ltb h.caplen (Eh.size + n + doff * 4)
      then some ignored
      else do info ← tcp_info e q p Eh.size (Eh.size + n); some (row (qs "TCP") info)

unfoldable pub udp_branch : Endian → Qt → Bytes → ℕ → Option Verdict
udp_branch e q p n = do info ← udp_info e q p (Eh.size + n); some (row (qs "UDP") info)

unfoldable pub icmp_branch : Endian → Qt → Bytes → ℕ → Option Verdict
icmp_branch e q p n = do info ← icmp_info e q p Eh.size (Eh.size + n); some (row (qs "ICMP") info)

unfoldable pub branch : Endian → Qt → Header → Bytes → ℕ → ℕ → Option Verdict
branch e q h p protocol n =
    if protocol == 6
    then tcp_branch e q h p n
    else if protocol == 17
    then udp_branch e q p n
    else if protocol == 1
    then icmp_branch e q p n
    else some ignored

-- The IPv4 part: from the length check of the IP header on.
unfoldable pub ip_part : Endian → Qt → Header → Bytes → Option Verdict
ip_part e q h p = if ltb h.caplen (Eh.size + IpH.size) then some ignored else do
  ihl ← IpH.ihl e p Eh.size
  if ltb ihl 5
      then some ignored
      else if ltb h.caplen (Eh.size + ihl * 4)
      then some ignored
      else do protocol ← IpH.protocol p Eh.size; branch e q h p protocol (ihl * 4)

unfoldable pub classify : Endian → Qt → Header → Bytes → Option Verdict
classify e q h p = if ltb h.caplen Eh.size then some ignored else do
  ether_type ← Eh.ether_type e p 0
  if not (ntohs e ether_type == 0x0800) then some ignored else ip_part e q h p

-- From the addresses on: the row and the copy of the packet are stored.
unfoldable pub store : Endian → Qt → Pcap → Header → Bytes → QString → QString → Option Pcap
store e q s h p proto info = do
  saddr ← IpH.saddr p Eh.size
  daddr ← IpH.daddr p Eh.size
  num ← increment s.num
  content ← byte_array p h.len
  tot_len ← IpH.tot_len e p Eh.size
  let dump : DumpData = record { pkt_num = s.num; header = h; content = content }
  let pkt : StPkt = record {
    num = s.num;
    src = q.inet_ntoa saddr;
    dst = q.inet_ntoa daddr;
    proto = proto;
    len = ntohs e tot_len + Eh.size;
    info = info;
  }
  some (dump_push_back (update_md (record s { num = num }) pkt) dump)

unfoldable pub finish : Endian → Qt → Pcap → Header → Bytes → Verdict → Option Pcap
finish e q s h p ignored = some s
finish e q s h p (row proto info) = store e q s h p proto info

unfoldable pub packet_func : Endian → Qt → Pcap → Header → Bytes → Option Pcap
packet_func e q s h p = do verdict ← classify e q h p; finish e q s h p verdict

-- The `while` of Pcap::pcapFile_Read over the packets that pcap_next_ex returns.
unfoldable pub read_loop : Endian → Qt → Pcap → List (Header × Bytes) → Option Pcap
read_loop e q s [] = some s
read_loop e q s ((h, p) ∷ rest) = do s' ← packet_func e q s h p; read_loop e q s' rest

-- Pcap::pcapFile_Read. `file` is what pcap_open_offline makes of the path: nullptr, or a handle and
-- the packets that it yields.
unfoldable pub pcap_file_read :
    Endian → Qt → Pcap → Option (ℕ × List (Header × Bytes)) → Option Pcap
pcap_file_read e q s none = some (record s { p_pcap = none })
pcap_file_read e q s (some (handle, packets)) = do
  s' ← read_loop e q (record s { p_pcap = some handle }) packets
  some (record s' { p_pcap = none; num = 0 })
