-- ===== src/Pcap/Live.antt =====
-- Reading a file and capturing live: the two copies of the dissection agree, and a live capture
-- whose messages have been delivered leaves the object as reading the same packets does.
use mini_wireshark.Base.{
  ℕ, ◌≡◌, refl, ◌∙◌, List, [], ◌∷◌, ◌++◌, Option, none, some, arith, ◌>>=◌, Option-cases, inl, inr,
}
use mini_wireshark.Qt.{Qt}
use mini_wireshark.Packet.Memory.{Bytes, Endian}
use mini_wireshark.Packet.Rows.{Header}
use mini_wireshark.Worker.Event.{Worker, Event}
use mini_wireshark.Worker.Info
use mini_wireshark.Worker.Handler
use mini_wireshark.Worker.Handler.{Verdict, ignored, row, my_packet_handler, capture_loop}
use mini_wireshark.Pcap.State
use mini_wireshark.Pcap.State.{Pcap, deliver, deliver_all}
use mini_wireshark.Pcap.Info as Copy
use mini_wireshark.Pcap.Offline
use mini_wireshark.Pcap.Offline.{packet_func, read_loop}

-- What the object becomes when the messages of a worker's run are delivered, its own counter taken
-- from the worker.
abbrev pub absorb : Pcap → Option (Worker × List Event) → Option Pcap
absorb s r = r >>= λ (wk, posted). some (record (deliver_all s posted) { num = wk.num })

module _ (e : Endian) (q : Qt) where
  -- The file reader's copy of the dissection is the capture thread's.
  pub classify-eq : (h : Header) (p : Bytes) → Offline.classify e q h p ≡ Handler.classify e q h p
  unfolding Offline.classify Offline.ip_part Offline.branch Offline.tcp_branch Offline.udp_branch
      Offline.icmp_branch Handler.classify Handler.ip_part Handler.branch Handler.tcp_branch
      Handler.udp_branch Handler.icmp_branch Copy.tcp_info Copy.tcp_flags Copy.flag_text
      Info.flag_text Copy.udp_info Copy.icmp_info Copy.icmp_rest Copy.icmp_echo Copy.payload_len
      Copy.icmp_name Copy.unreachable_code Copy.exceeded_code Info.tcp_info Info.tcp_flags
      Info.udp_info Info.icmp_info Info.icmp_rest Info.icmp_echo Info.payload_len Info.icmp_name
      Info.unreachable_code Info.exceeded_code
  classify-eq h p = refl

  -- One packet of a file, and the same packet captured live and delivered.
  pub packet_func-absorb :
      (s : Pcap) (wk : Worker) (h : Header) (p : Bytes)
      → packet_func e q s h p ≡ absorb s (my_packet_handler e q (record wk { num = s.num }) h p)
  unfolding packet_func my_packet_handler Offline.finish Handler.finish Offline.store Handler.post
      deliver_all State.update_md State.dump_push_back
  packet_func-absorb s wk h p = rw (classify-eq h p) (ground arith)

pub deliver_all-append :
    (s : Pcap) (ms ns : List Event) → deliver_all s (ms ++ ns) ≡ deliver_all (deliver_all s ms) ns
unfolding deliver_all
deliver_all-append s [] ns = refl
deliver_all-append s (m ∷ ms) ns = deliver_all-append (deliver s m) ms ns

-- No message touches the counter of the file reader.
deliver_all-num :
    (s : Pcap) (n : ℕ) (ms : List Event)
    → deliver_all (record s { num = n }) ms ≡ record (deliver_all s ms) { num = n }
unfolding deliver_all
deliver_all-num s n [] = refl
deliver_all-num s n (Event.update_md pkt ∷ ms) =
    deliver_all-num (deliver s (Event.update_md pkt)) n ms
deliver_all-num s n (m ∷ ms) = deliver_all-num (deliver s m) n ms

-- Messages of two parts of a run, delivered one after the other.
absorb-split :
    (s : Pcap) (wk : Worker) (posted : List Event) (r : Option (Worker × List Event))
    → absorb (record (deliver_all s posted) { num = wk.num }) r
      ≡ absorb s (r >>= λ (wk', later). some (wk', posted ++ later))
absorb-split s wk posted none = refl
absorb-split s wk posted (some (wk', later)) =
    rw (deliver_all-num (deliver_all s posted) wk.num later, deliver_all-append s posted later)

-- Reading any packets from a file leaves the object as capturing them live does, with the same
-- counter and once the messages are delivered; and the one faults where the other does.
pub read_loop-absorb :
    (e : Endian) (q : Qt) (packets : List (Header × Bytes)) (s : Pcap) (wk : Worker)
    → read_loop e q s packets ≡ absorb s (capture_loop e q (record wk { num = s.num }) packets)
unfolding read_loop capture_loop deliver_all
read_loop-absorb e q [] s wk = refl
read_loop-absorb e q ((h, p) ∷ rest) s wk =
    rw (packet_func-absorb e q s wk h p)
      (elim (Option-cases (my_packet_handler e q (record wk { num = s.num }) h p)) [
        | inl n ↦ rw n
        | inr ((wk', posted), y) ↦
            rw y (read_loop-absorb e q rest _ wk' ∙ absorb-split s wk' posted _)
      ])
