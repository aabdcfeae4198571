-- ===== src/Tests/ControlTests.antt =====
-- Capture sessions, the buttons and saved files at concrete inputs.
use mini_wireshark.Base.{
  Bool, ◌≡◌, ◌≢◌, refl, ◌∙◌, ap, true, false, List, [], ◌∷◌, ◌++◌, Option, none, some, arith,
}
use mini_wireshark.Qt.{qs}
use mini_wireshark.Packet.Memory.{Bytes, little}
use mini_wireshark.Packet.Rows.{Header}
use mini_wireshark.Worker.Event.{Worker, Event, set_wk_pp, set_wk_life}
use mini_wireshark.Worker.Wire.{wire_verdict, transport, tcp_line}
use mini_wireshark.Worker.Handler.{Verdict, row, my_packet_handler, capture_loop}
use mini_wireshark.Worker.Session.{Answers, run_open, run_handle, delivered, set_capture}
use mini_wireshark.Pcap.State
use mini_wireshark.Pcap.State.{Pcap, new_pcap, deliver, deliver_all}
use mini_wireshark.Pcap.Offline.{read_loop, pcap_file_read}
use mini_wireshark.Pcap.Control.{new_worker, create_th, stop_th, stop_handle, reset_md}
use mini_wireshark.Pcap.Save.{save_md}
use mini_wireshark.Pcap.Save.RoundTrip.{AllWhole}
use mini_wireshark.Pcap.Save.Session.{stopped, save_md-pcap_file_read}
use mini_wireshark.Pcap.Sessions.{SameList, set_capture-read_loop, set_capture_refused}
use mini_wireshark.Pcap.Reach.{Reach, IsConsistent, start, next, Step, Reach-IsConsistent}
use mini_wireshark.Worker.Outcome.{outcome, my_packet_handler-wire}
use mini_wireshark.Packet.Memory.{be16}
use mini_wireshark.Pcap.Shows.{AllSound, Adds, wire_rows, wire_dumps, read_loop-wire_rows}
use mini_wireshark.Pcap.Captures.{set_capture-wire_rows}
use mini_wireshark.Tests.Sample.{sample}
use mini_wireshark.Tests.PacketTests.{tcp_packet, tcp_record, worker, tcp-IsComplete}

abbrev pub packets : List (Header × Bytes)
packets = (tcp_record, tcp_packet) ∷ []

abbrev or_new : Option Pcap → Pcap
or_new none = new_pcap
or_new (some s) = s

-- The row that the wire description gives for it.
abbrev verdict : Verdict
verdict = row (qs "TCP") (tcp_line sample tcp_packet 34)

is_row : wire_verdict sample tcp_packet ≡ verdict
unfolding wire_verdict transport be16
is_row = refl

-- What the worker posts for it.
abbrev pub posted_row : Worker × List Event
posted_row = outcome sample (record worker { num = 0 }) tcp_record tcp_packet verdict

-- The state behind the packet.
abbrev after_read : Pcap
after_read = record (deliver_all new_pcap posted_row.1) { num = 1 }

pub handled :
    (wk : Worker)
    → my_packet_handler little sample (record wk { num = 0 }) tcp_record tcp_packet
      ≡ some (record wk { num = 1 }, posted_row.1)
handled wk =
    my_packet_handler-wire little sample (record wk { num = 0 }) tcp_record tcp_packet (omega arith)
      refl tcp-IsComplete (omega arith) (omega arith)
    ∙ ap (λ v. some (outcome sample (record wk { num = 0 }) tcp_record tcp_packet v)) is_row

abbrev answers : Bool → Answers
answers ok = record { opened = some 5; compiled = ok; filtered = true; packets = packets }

abbrev pub filtering : Worker
filtering = record { pp = none; num = 0; nic_name = qs "eth0"; bfs_ft = qs "tcp" }

set_capture_refused_example :
    (set_capture little sample filtering (answers false)
      ≡ some (
        record filtering { pp = none },
        set_wk_pp (some 5) ∷ set_wk_life true ∷ set_wk_pp none ∷ set_wk_life false ∷ [],
      ))
    × ((deliver_all new_pcap
          (set_wk_pp (some 5) ∷ set_wk_life true ∷ set_wk_pp none ∷ set_wk_life false ∷ [])).wk_flag
        ≡ new_pcap.wk_flag)
    × ((deliver_all new_pcap (
          set_wk_pp (some 5)
          ∷ set_wk_life true
          ∷ set_wk_pp none
          ∷ set_wk_life false
          ∷ [])).stop_flag
        ≡ new_pcap.stop_flag)
    × (stop_th (
          deliver_all new_pcap
            (set_wk_pp (some 5) ∷ set_wk_life true ∷ set_wk_pp none ∷ set_wk_life false ∷ []))
        ≡ (
          deliver_all new_pcap
              (set_wk_pp (some 5) ∷ set_wk_life true ∷ set_wk_pp none ∷ set_wk_life false ∷ []),
          none,
        ))
unfolding qs
set_capture_refused_example =
    set_capture_refused little sample new_pcap filtering (answers false) 5 refl refl refl

abbrev session_end : Worker × List Event
session_end = (
  record filtering { pp = none; num = 1 },
  set_wk_pp (some 5) ∷ set_wk_life true ∷ (posted_row.1 ++ set_wk_pp none ∷ set_wk_life false ∷ []),
)

session_runs : set_capture little sample filtering (answers true) ≡ some session_end
unfolding set_capture run_handle run_open delivered capture_loop qs
session_runs = rw (handled (record filtering { pp = some 5 })) refl

set_capture-read_loop_example :
    (t : Pcap) × (read_loop little sample new_pcap (delivered (qs "tcp") (answers true)) ≡ some t)
    × SameList (deliver_all new_pcap session_end.1) t
    × ((deliver_all new_pcap session_end.1).wk_life ≡ false)
    × ((deliver_all new_pcap session_end.1).wk_pp ≡ none)
unfolding new_pcap
set_capture-read_loop_example =
    set_capture-read_loop little sample new_pcap filtering session_end.0 (answers true) 5
      session_end.1 refl refl session_runs

-- The stop button is clicked when two messages have been delivered; the capture is then saved, and
-- opened again.
abbrev early : List Event
early = set_wk_pp (some 5) ∷ set_wk_life true ∷ []

abbrev late : List Event
late = posted_row.1 ++ set_wk_pp none ∷ set_wk_life false ∷ []

abbrev captured : Pcap
captured = stopped (create_th new_pcap (qs "eth0") (qs "tcp")).0 early late

captured_runs :
    set_capture little sample (new_worker (qs "eth0") (qs "tcp")) (answers true)
    ≡ some (record (new_worker (qs "eth0") (qs "tcp")) { num = 1 }, early ++ late)
unfolding set_capture run_handle run_open delivered capture_loop qs new_worker
captured_runs = rw (handled (record (new_worker (qs "eth0") (qs "tcp")) { pp = some 5 })) refl

clicked : (stop_th (deliver_all (create_th new_pcap (qs "eth0") (qs "tcp")).0 early)).1 ≡ some 5
unfolding stop_th stop_handle deliver_all deliver
clicked = refl

not_empty : captured.vec_dump ≢ []
unfolding deliver_all deliver State.update_md State.dump_push_back new_pcap stop_th stop_handle
    create_th qs
not_empty h = cc

all_whole : AllWhole (delivered (qs "tcp") (answers true))
unfolding delivered qs
all_whole = ((refl, refl), tt)

save_md-pcap_file_read_example :
    (records : List (Header × Bytes)) × (t : Pcap) × (save_md captured true ≡ some (some records))
    × (pcap_file_read little sample (reset_md captured) (some (9, records)) ≡ some t)
    × SameList t captured
unfolding new_pcap qs
save_md-pcap_file_read_example =
    save_md-pcap_file_read little sample new_pcap b'e' (qs "th0") (qs "tcp")
      (record (new_worker (qs "eth0") (qs "tcp")) { num = 1 }) (answers true) 5 5 9 early late refl
      refl all_whole captured_runs clicked not_empty

-- A capture is started and stopped.
abbrev halted : Pcap
halted = (stop_th (deliver (create_th new_pcap (qs "eth0") []).0 (set_wk_pp (some 5)))).0

reached : Reach little sample halted
reached =
    next
      (next (next start (Step.create new_pcap (qs "eth0") []))
        (Step.message _ (set_wk_pp (some 5)) tt))
      (Step.stop _)

Reach-IsConsistent_example : IsConsistent halted
Reach-IsConsistent_example = Reach-IsConsistent little sample reached

sound_packets : AllSound packets
sound_packets =
    (record { bytes = omega arith; cap = refl; whole = omega arith; complete = tcp-IsComplete }, tt)

read_loop-wire_rows_example :
    (t : Pcap) × (read_loop little sample new_pcap packets ≡ some t)
    × Adds new_pcap t (wire_rows sample 0 packets) (wire_dumps sample 0 packets)
unfolding new_pcap
read_loop-wire_rows_example =
    read_loop-wire_rows little sample packets new_pcap sound_packets (omega arith)

set_capture-wire_rows_example :
    (wk' : Worker) × (posted : List Event) × (set_capture little sample filtering (answers true)
      ≡ some (wk', posted))
    × Adds new_pcap
        (deliver_all new_pcap posted)
        (wire_rows sample 0 packets)
        (wire_dumps sample 0 packets)
    × ((deliver_all new_pcap posted).wk_life ≡ false)
    × ((deliver_all new_pcap posted).wk_pp ≡ none)
unfolding new_pcap delivered qs
set_capture-wire_rows_example =
    set_capture-wire_rows little sample new_pcap filtering (answers true) 5 refl refl sound_packets
      (omega arith)
