-- ===== src/Pcap/Info.antt =====
-- Pcap.cpp, Pcap::packet_func: the info column of a packet read from a file. The source has
-- the code of Worker::my_packet_handler a second time; the literals are those of that copy. `ip` and
-- `o` are the offsets of the IP header and of the header behind it.
use mini_wireshark.Base.{
  ℕ, ◌+◌, ◌-◌, ◌*◌, ◌%◌, ◌^◌, ◌||◌, [], ◌++◌, Option, some, ◌==◌, if◌then◌else◌, ◌>>=◌,
}
use mini_wireshark.Base.Int.{ℤ, pos, sub_ℕ, signed32}
use mini_wireshark.Qt.{QString, qs, Qt}
use mini_wireshark.Packet.Memory.{Bytes, Endian, ntohs, ntohl}
use mini_wireshark.Packet.IpH
use mini_wireshark.Packet.TcpH
use mini_wireshark.Packet.UdpH
use mini_wireshark.Packet.IcmpH
use mini_wireshark.Worker.Info.{when, mark}

-- The six flags that are shown; ECE and CWR are read and not used.
unfoldable pub flag_text : ℕ → ℕ → ℕ → ℕ → ℕ → ℕ → QString
flag_text syn ack fin rst psh urg =
    qs "   [ "
    ++ (mark syn "SYN "
        ++ (mark ack "ACK "
            ++ (mark fin "FIN "
                ++ (mark rst "RST " ++ (mark psh "PSH " ++ (mark urg "URG " ++ qs "]   "))))))

unfoldable pub tcp_flags : Endian → Bytes → ℕ → Option QString
tcp_flags e p o = do
  fin ← TcpH.fin e p o
  syn ← TcpH.syn e p o
  rst ← TcpH.rst e p o
  psh ← TcpH.psh e p o
  ack ← TcpH.ack e p o
  urg ← TcpH.urg e p o
  ece ← TcpH.ece e p o
  cwr ← TcpH.cwr e p o
  some (flag_text syn ack fin rst psh urg)

-- `int - int - uint32_t`, stored in an int: the difference is taken modulo 2 ^ 32.
unfoldable pub payload_len : ℕ → ℕ → ℕ → ℤ
payload_len tot ihl header_len =
    signed32 (((tot + 2 ^ 32 - ihl * 4) % 2 ^ 32 + 2 ^ 32 - header_len) % 2 ^ 32)

unfoldable pub tcp_info : Endian → Qt → Bytes → ℕ → ℕ → Option QString
tcp_info e q p ip o = do
  source ← TcpH.source e p o
  dest ← TcpH.dest e p o
  doff ← TcpH.doff e p o
  flags ← tcp_flags e p o
  seq ← TcpH.seq e p o
  ack_seq ← TcpH.ack_seq e p o
  window ← TcpH.window e p o
  tot_len ← IpH.tot_len e p ip
  ihl ← IpH.ihl e p ip
  some (
      q.number (pos (ntohs e source))
      ++ (qs " ---> "
          ++ (q.number (pos (ntohs e dest))
              ++ (flags
                  ++ (qs "Seq="
                      ++ (q.number (pos (ntohl e seq))
                          ++ (qs "   Ack="
                              ++ (q.number (pos (ntohl e ack_seq))
                                  ++ (qs "   Win="
                                      ++ (q.number (pos (ntohs e window))
                                          ++ (qs "   Len="
                                              ++ q.number (
                                                  payload_len (ntohs e tot_len) ihl
                                                    (doff * 4)))))))))))))

unfoldable pub udp_info : Endian → Qt → Bytes → ℕ → Option QString
udp_info e q p o = do
  source ← UdpH.source e p o
  dest ← UdpH.dest e p o
  len ← UdpH.len e p o
  some (
      q.number (pos (ntohs e source))
      ++ (qs " ---> "
          ++ (q.number (pos (ntohs e dest)) ++ (qs "   Len=" ++ q.number (sub_ℕ (ntohs e len) 8)))))

-- The name of the message type, one conditional text for each known type.
unfoldable pub icmp_name : ℕ → QString
icmp_name type =
    when (type == 0) "Echo Reply"
    ++ (when (type == 3) "Destination Unreachable"
        ++ (when (type == 5) "Redirect"
            ++ (when (type == 8) "Echo Request"
                ++ (when (type == 11) "Time Exceeded" ++ qs "   "))))

unfoldable pub unreachable_code : ℕ → QString
unreachable_code code =
    when (code == 0) "Network Unreachable"
    ++ (when (code == 1) "Host Unreachable" ++ when (code == 3) "Port Unreachable")

unfoldable pub exceeded_code : ℕ → QString
exceeded_code code =
    when (code == 0) "TTL exceeded" ++ when (code == 1) "fragment reassembly time exceeded"

unfoldable pub icmp_echo : Endian → Qt → Bytes → ℕ → ℕ → Option QString
icmp_echo e q p ip o = do
  id ← IcmpH.echo_id e p o
  seq ← IcmpH.echo_sequence e p o
  ttl ← IpH.ttl p ip
  some (
      qs "id="
      ++ (q.number (pos (ntohs e id))
          ++ (qs "   "
              ++ (qs "seq="
                  ++ (q.number (pos (ntohs e seq))
                      ++ (qs "   " ++ (qs "ttl=" ++ q.number (pos ttl))))))))

-- What follows the name: the code of an error message, or the fields of an echo.
unfoldable pub icmp_rest : Endian → Qt → Bytes → ℕ → ℕ → ℕ → Option QString
icmp_rest e q p ip o type =
    if type == 3
    then (do code ← IcmpH.code p o; some (unreachable_code code))
    else if type == 11
    then (do code ← IcmpH.code p o; some (exceeded_code code))
    else if type == 0 || type == 8
    then icmp_echo e q p ip o
    else some []

unfoldable pub icmp_info : Endian → Qt → Bytes → ℕ → ℕ → Option QString
icmp_info e q p ip o = do
  type ← IcmpH.type p o
  rest ← icmp_rest e q p ip o type
  some (icmp_name type ++ rest)
