-- ===== src/Tests/PcapTests.antt =====
-- Reading a file, the hex dump and the checksum at concrete inputs.
use mini_wireshark.Base.{◌*◌, ◌<◌, ◌≡◌, ◌↔◌, ◌%◌, ◌-◌, refl, [], ◌∷◌, some, arith, length, take}
use mini_wireshark.Qt.{QString}
use mini_wireshark.Packet.Memory.{little, be16}
use mini_wireshark.Packet.Rows.{DumpData}
use mini_wireshark.Worker.Handler.{capture_loop}
use mini_wireshark.Pcap.State.{Pcap, new_pcap}
use mini_wireshark.Pcap.Offline.{read_loop}
use mini_wireshark.Pcap.Live.{absorb, read_loop-absorb}
use mini_wireshark.Pcap.Dumps.{find_dump, search_in, find_loop}
use mini_wireshark.Pcap.Hex.{start_hax}
use mini_wireshark.Pcap.Hex.Text.{read_lines}
use mini_wireshark.Pcap.Hex.Laws.{line_count}
use mini_wireshark.Pcap.Hex.Decode.{start_hax-read_lines}
use mini_wireshark.Pcap.Checksum.{compute_ip_checksum}
use mini_wireshark.Pcap.Checksum.Laws.{
  words_sum, ones_fold, compute_ip_checksum-ones, compute_ip_checksum-zero_iff,
}
use mini_wireshark.Tests.Sample.{sample, sample-HexLaws}
use mini_wireshark.Tests.PacketTests.{tcp_packet, tcp_record, worker}

read_loop-absorb_example :
    read_loop little sample new_pcap ((tcp_record, tcp_packet) ∷ [])
    ≡ absorb new_pcap (
        capture_loop little sample
          (record worker { num = new_pcap.num })
          ((tcp_record, tcp_packet) ∷ []))
read_loop-absorb_example =
    read_loop-absorb little sample ((tcp_record, tcp_packet) ∷ []) new_pcap worker

abbrev stored : DumpData
stored = record { pkt_num = 3; header = tcp_record; content = tcp_packet }

abbrev holding : Pcap
unfolding new_pcap
holding = record new_pcap { vec_dump = stored ∷ [] }

start_hax-read_lines_example :
    (text : QString) × (start_hax sample holding 3 ≡ some text)
    × (read_lines (line_count 54) text ≡ take 54 tcp_packet)
    × (length text ≡ 77 * line_count 54)
unfolding find_dump search_in find_loop new_pcap
start_hax-read_lines_example =
    start_hax-read_lines sample sample-HexLaws holding 3 stored refl (omega arith) (λ e. cc)
      (omega arith) (omega arith)

compute_ip_checksum-ones_example :
    compute_ip_checksum tcp_packet 14 (10 * 2)
    ≡ some (65535 - ones_fold (words_sum tcp_packet 14 10))
compute_ip_checksum-ones_example =
    compute_ip_checksum-ones tcp_packet 14 10 (omega arith) (omega arith) (omega arith)

compute_ip_checksum-zero_iff_example :
    (compute_ip_checksum tcp_packet 14 (10 * 2) ≡ some 0)
    ↔ ((0 < words_sum tcp_packet 14 10) × (words_sum tcp_packet 14 10 % 65535 ≡ 0))
compute_ip_checksum-zero_iff_example =
    compute_ip_checksum-zero_iff tcp_packet 14 10 (omega arith) (omega arith) (omega arith)

-- The header of the packet above is good.
good_header : words_sum tcp_packet 14 10 ≡ 65535
unfolding words_sum be16
good_header = refl
