-- ===== src/Threads/Races.antt =====
-- Two orders of steps that Worker::set_Capture, Pcap::stop_Th and Pcap::create_Th allow.
use mini_wireshark.Base.{ℕ, ◌≡◌, ◌≢◌, refl, true, false, [], ◌∷◌, none, some, arith}
use mini_wireshark.Qt.{Qt, QString}
use mini_wireshark.Packet.Memory.{Endian}
use mini_wireshark.Worker.Event.{Worker, set_wk_pp, set_wk_life}
use mini_wireshark.Pcap.State
use mini_wireshark.Pcap.State.{Pcap, new_pcap, deliver}
use mini_wireshark.Pcap.Control.{create_th, new_worker, stop_th, stop_handle}
use mini_wireshark.Threads.System.{
  queued, blocking, looping, closed, System, Run, begin, later, click, create, work, open_live,
  tell_handle, tell_life, start_loop, end_loop, close, call_back, wake, tell_end, run_call, stop,
}

module _ (e : Endian) (q : Qt) where
  -- Whatever interface is captured, with whatever filter and handle: the thread of that capture may
  -- stand behind its pcap_close while the object still keeps the handle, and a stop click then
  -- passes the closed handle to pcap_breakloop.
  pub stop_th_closed :
      (c : ℕ) (name filter : QString) (h : ℕ)
      → (s : System) × Run e q s
        × (s.pc 0 ≡ closed (record (new_worker (c ∷ name) filter) { pp = some h }) h)
        × (s.shared.is_open h ≡ false)
        × ((stop_th s.shared.pcap).1 ≡ some h)
  unfolding stop_th stop_handle create_th new_worker State.set_stop_flag State.set_wk_flag deliver
      State.set_wk_pp State.set_wk_life
  stop_th_closed c name filter h = (
    _,
    later
        (later
          (later
            (later
              (later
                (later
                  (later (later begin (create (c ∷ name) filter refl)) (work 0 (open_live h refl)))
                  (work 0 tell_handle))
                (click (run_call (queued (set_wk_pp (some h))) [] refl)))
              (work 0 tell_life))
            (work 0 start_loop))
          (work 0 end_loop))
        (work 0 close),
    refl,
    ground arith,
    refl,
  )

  -- A capture that is stopped, and another that is started before the thread of the first has come
  -- to its end: the blocking call of the first takes the handle of the second from the object. The
  -- second captures, its handle is open, all calls have run, and a stop click does nothing.
  pub stop_th_lost :
      (c : ℕ) (name filter : QString) (h k : ℕ)
      → h ≢ k
      → (s : System) × (wk : Worker) × Run e q s
        × (s.pc 1 ≡ looping wk k)
        × (s.shared.is_open k ≡ true)
        × (s.shared.queue ≡ [])
        × (stop_th s.shared.pcap ≡ (s.shared.pcap, none))
  unfolding stop_th stop_handle create_th new_worker State.set_stop_flag State.set_wk_flag deliver
      State.set_wk_pp State.set_wk_life
  stop_th_lost c name filter h k other = (
    _,
    _,
    later
        (later
          (later
            (later
              (later
                (later
                  (later
                    (later
                      (later
                        (later
                          (later
                            (later
                              (later
                                (later
                                  (later
                                    (later
                                      (later
                                        (later
                                          (later
                                            (later
                                              (later (later begin (create (c ∷ name) filter refl))
                                                (work 0 (open_live h refl)))
                                              (work 0 tell_handle))
                                            (click
                                              (run_call (queued (set_wk_pp (some h))) [] refl)))
                                          (work 0 tell_life))
                                        (click (run_call (queued (set_wk_life true)) [] refl)))
                                      (work 0 start_loop))
                                    (click stop))
                                  (create (c ∷ name) filter refl))
                                (work 1 (open_live k (ground arith))))
                              (work 1 tell_handle))
                            (click (run_call (queued (set_wk_pp (some k))) [] refl)))
                          (work 1 tell_life))
                        (click (run_call (queued (set_wk_life true)) [] refl)))
                      (work 1 start_loop))
                    (work 0 end_loop))
                  (work 0 close))
                (work 0 call_back))
              (click (run_call (blocking 0) [] refl)))
            (work 0 (wake refl)))
          (work 0 tell_end))
        (click (run_call (queued (set_wk_life false)) [] refl)),
    refl,
    ground arith,
    refl,
    refl,
  )
