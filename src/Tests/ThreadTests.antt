-- ===== src/Tests/ThreadTests.antt =====
-- Interleavings of capture threads with the user interface's thread at concrete inputs.
use mini_wireshark.Base.{◌≡◌, refl, ◌⊎◌, true, false, [], none, some, arith}
use mini_wireshark.Qt.{qs}
use mini_wireshark.Packet.Memory.{little}
use mini_wireshark.Worker.Event.{Worker, set_wk_pp}
use mini_wireshark.Pcap.State
use mini_wireshark.Pcap.State.{Pcap, new_pcap, deliver, deliver_all}
use mini_wireshark.Pcap.Offline.{read_loop}
use mini_wireshark.Pcap.Control.{stop_th, stop_handle}
use mini_wireshark.Pcap.Sessions.{SameList}
use mini_wireshark.Tests.ControlTests.{posted_row}
use mini_wireshark.Worker.Event.{Event}
use mini_wireshark.Worker.Event.{set_wk_life}
use mini_wireshark.Base.{◌++◌}
use mini_wireshark.Threads.System.{
  queued, blocking, Shared, Pc, starting, opened, looping, leaving, gone, System, Run, with_thread,
  fresh_system, post, open_live, tell_handle, tell_life, start_loop, packet, end_loop, close,
  call_back, wake, tell_end,
}
use mini_wireshark.Threads.System as System
use mini_wireshark.Threads.Solo.{Solo, begin, work, run_call}
use mini_wireshark.Threads.Handles.Stop.{IsClosing}
use mini_wireshark.Threads.Chain.{fresh_shared, created, first, stop_th-chain, read_loop-chain}
use mini_wireshark.Packet.Memory.{Bytes}
use mini_wireshark.Packet.Rows.{Header}
use mini_wireshark.Pcap.Control.{create_th, new_worker}
use mini_wireshark.Base.{List, ◌∷◌}
use mini_wireshark.Worker.Event.{Worker}
use mini_wireshark.Threads.System.{Pc, Shared}
use mini_wireshark.Threads.Ending.{IsInevitable, IsEnding-IsInevitable}
use mini_wireshark.Threads.Races.{stop_th_closed, stop_th_lost}
use mini_wireshark.Threads.System.{closed}
use mini_wireshark.Tests.Sample.{sample}
use mini_wireshark.Tests.PacketTests.{tcp_packet, tcp_record}
use mini_wireshark.Tests.ControlTests.{packets, handled}

abbrev capturing : Worker
capturing = record { pp = none; num = 0; nic_name = b'e' ∷ qs "th0"; bfs_ft = qs "tcp" }

-- The first capture of a new object is about to start.
abbrev started : Shared
started = created fresh_shared (b'e' ∷ qs "th0") (qs "tcp")

abbrev Session : List (Header × Bytes) → Shared → Pc → Type 0
Session = Solo little sample 0 started (new_worker (b'e' ∷ qs "th0") (qs "tcp"))

-- A session that is in pcap_loop with its handle kept, and one packet later.
in_loop :
    (s : Shared) × (s.pcap.wk_pp ≡ some 5)
    × Session [] s (looping (record capturing { pp = some 5 }) 5)
unfolding deliver State.set_wk_pp State.set_wk_life new_worker create_th
in_loop = (
  _,
  refl,
  work
      (work
        (run_call (queued (set_wk_pp (some 5))) []
          (work (work begin (open_live 5 refl)) tell_handle) refl)
        tell_life)
      start_loop,
)

-- A packet is handled, the loop ends, the thread closes and reports, all calls run.
whole_session : (s : Shared) × (s.queue ≡ []) × Session packets s gone
unfolding deliver State.set_wk_pp State.set_wk_life State.set_wk_flag in_loop
whole_session = (
  _,
  refl,
  run_call _ []
      (work
        (work
          (run_call (blocking 0) []
            (run_call _ _
              (run_call _ _
                (run_call _ _
                  (work
                    (work
                      (work
                        (work in_loop.2 (
                          packet tcp_record tcp_packet
                            (handled (record capturing { pp = some 5 }))))
                        end_loop)
                      close)
                    call_back)
                  refl)
                refl)
              refl)
            refl)
          (wake refl))
        tell_end)
      refl,
)

stop_th-chain_example :
    (in_loop.0.is_open 5 ≡ true) ⊎ IsClosing (looping (record capturing { pp = some 5 }) 5)
unfolding stop_th stop_handle deliver State.set_wk_pp State.set_wk_life new_pcap in_loop
stop_th-chain_example =
    stop_th-chain little sample first 0 b'e' (qs "th0") (qs "tcp") in_loop.2 refl

IsEnding-IsInevitable_example :
    IsInevitable little sample 0 started (leaving (record capturing { pp = some 5 }) 5)
IsEnding-IsInevitable_example =
    IsEnding-IsInevitable little sample 0 started (leaving (record capturing { pp = some 5 }) 5) tt

stop_th_closed_example :
    (s : System.System) × Run little sample s
    × (s.pc 0 ≡ closed (record (new_worker (b'e' ∷ qs "th0") (qs "tcp")) { pp = some 5 }) 5)
    × (s.shared.is_open 5 ≡ false)
    × ((stop_th s.shared.pcap).1 ≡ some 5)
stop_th_closed_example = stop_th_closed little sample b'e' (qs "th0") (qs "tcp") 5

stop_th_lost_example :
    (s : System.System) × (wk : Worker) × Run little sample s
    × (s.pc 1 ≡ looping wk 6)
    × (s.shared.is_open 6 ≡ true)
    × (s.shared.queue ≡ [])
    × (stop_th s.shared.pcap ≡ (s.shared.pcap, none))
stop_th_lost_example = stop_th_lost little sample 101 (qs "th0") [] 5 6 (omega arith)

read_loop-chain_example :
    (t : Pcap) × (read_loop little sample started.pcap packets ≡ some t)
    × SameList whole_session.0.pcap t
    × (whole_session.0.pcap.wk_life ≡ false)
    × (whole_session.0.pcap.wk_pp ≡ none)
read_loop-chain_example =
    read_loop-chain little sample first 0 b'e' (qs "th0") (qs "tcp") whole_session.2 whole_session.1

-- The steps of a thread that handles a packet, and the calls that it adds.
abbrev calls : List Event
calls =
    set_wk_pp (some 5)
    ∷ set_wk_life true
    ∷ (posted_row.1 ++ set_wk_pp none ∷ set_wk_life false ∷ [])
