-- ===== src/Tests/PacketTests.antt =====
-- The handler of the capture thread at a TCP packet, a UDP packet and a cut one.
use mini_wireshark.Base.{◌≡◌, refl, [], ◌∷◌, ◌++◌, none, some, arith, inl}
use mini_wireshark.Packet.Memory.{Bytes, little, big, be16}
use mini_wireshark.Packet.Rows.{Header}
use mini_wireshark.Worker.Event.{Worker}
use mini_wireshark.Worker.Handler.{classify, my_packet_handler}
use mini_wireshark.Worker.Wire.{IsComplete, wire_verdict, transport}
use mini_wireshark.Worker.Agreement.{classify-wire}
use mini_wireshark.Worker.Outcome.{outcome, my_packet_handler-wire}
use mini_wireshark.Worker.Faults.{my_packet_handler-none, my_packet_handler_truncated}
use mini_wireshark.Tests.Sample.{sample}

abbrev pub ethernet : Bytes
ethernet = 2 ∷ 0 ∷ 0 ∷ 0 ∷ 0 ∷ 1 ∷ 2 ∷ 0 ∷ 0 ∷ 0 ∷ 0 ∷ 2 ∷ 8 ∷ 0 ∷ []

-- 10.0.0.1 to 10.0.0.2, 40 bytes, TCP.
abbrev pub ipv4_tcp : Bytes
ipv4_tcp =
    0x45 ∷ 0 ∷ 0 ∷ 40 ∷ 0 ∷ 1 ∷ 0x40 ∷ 0 ∷ 64 ∷ 6 ∷ 0x26 ∷ 0xcd ∷ 10 ∷ 0 ∷ 0 ∷ 1 ∷ 10 ∷ 0 ∷ 0 ∷ 2
    ∷ []

-- Port 1234 to 80, SYN.
abbrev pub tcp_syn : Bytes
tcp_syn = 4 ∷ 210 ∷ 0 ∷ 80 ∷ 0 ∷ 0 ∷ 0 ∷ 1 ∷ 0 ∷ 0 ∷ 0 ∷ 0 ∷ 0x50 ∷ 2 ∷ 1 ∷ 0 ∷ 0 ∷ 0 ∷ 0 ∷ 0 ∷ []

abbrev pub tcp_packet : Bytes
tcp_packet = ethernet ++ (ipv4_tcp ++ tcp_syn)

abbrev pub tcp_record : Header
tcp_record = record { ts_sec = 1; ts_usec = 2; caplen = 54; len = 54 }

-- A UDP packet of which the capture holds two bytes of the UDP header.
abbrev cut_udp : Bytes
cut_udp =
    ethernet
    ++ (0x45 ∷ 0 ∷ 0 ∷ 30 ∷ 0 ∷ 1 ∷ 0 ∷ 0 ∷ 64 ∷ 17 ∷ 0 ∷ 0 ∷ 10 ∷ 0 ∷ 0 ∷ 1 ∷ 10 ∷ 0 ∷ 0 ∷ 2 ∷ 0
        ∷ 53 ∷ [])

abbrev cut_record : Header
cut_record = record { ts_sec = 1; ts_usec = 2; caplen = 36; len = 44 }

-- The TCP packet above, cut by the snapshot length behind its headers.
abbrev cut_tcp_record : Header
cut_tcp_record = record { ts_sec = 1; ts_usec = 2; caplen = 54; len = 60 }

abbrev pub worker : Worker
worker = record { pp = some 1; num = 7; nic_name = []; bfs_ft = [] }

pub tcp-IsComplete : IsComplete tcp_packet
tcp-IsComplete = omega arith

classify-wire_example :
    classify big sample tcp_record tcp_packet ≡ some (wire_verdict sample tcp_packet)
classify-wire_example =
    classify-wire big sample tcp_record tcp_packet (omega arith) refl tcp-IsComplete

my_packet_handler-wire_example :
    my_packet_handler little sample worker tcp_record tcp_packet
    ≡ some (outcome sample worker tcp_record tcp_packet (wire_verdict sample tcp_packet))
my_packet_handler-wire_example =
    my_packet_handler-wire little sample worker tcp_record tcp_packet (omega arith) refl
      tcp-IsComplete (omega arith) (omega arith)

my_packet_handler-none_example : my_packet_handler little sample worker cut_record cut_udp ≡ none
unfolding be16
my_packet_handler-none_example =
    my_packet_handler-none little sample worker cut_record cut_udp (omega arith) refl refl
      (inl (refl, omega arith))

my_packet_handler_truncated_example :
    my_packet_handler little sample worker cut_tcp_record tcp_packet ≡ none
unfolding wire_verdict transport be16
my_packet_handler_truncated_example =
    my_packet_handler_truncated little sample worker cut_tcp_record tcp_packet (omega arith) refl
      tcp-IsComplete refl (omega arith)
