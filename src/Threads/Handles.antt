-- ===== src/Threads/Handles.antt =====
-- The handle that the stop button uses, wk_pp, and the handle of the thread, while one thread runs.
pub mod Calls
pub mod Stop
use mini_wireshark.Base.{
  ℕ, ◌≡◌, refl, ap, sym, ◌∙◌, ◌⊎◌, inl, inr, true, false, List, [], ◌∷◌, ◌++◌, map, none, some,
  arith, ◌||◌,
}
use mini_wireshark.Qt.{Qt}
use mini_wireshark.Packet.Memory.{Bytes, Endian}
use mini_wireshark.Packet.Rows.{Header}
use mini_wireshark.Worker.Event.{Worker, Event, Handle, set_wk_pp}
use mini_wireshark.Pcap.State.{Pcap, deliver}
use mini_wireshark.Pcap.State
use mini_wireshark.Pcap.Control.{stop_th, stop_handle}
use mini_wireshark.Threads.System.{
  Post, queued, blocking, event_of, is_blocked, Shared, Pc, unborn, starting, failed, failed_late,
  opened, announced, filtering, looping, leaving, closed, waiting, woken, gone, Move,
}
use mini_wireshark.Threads.System.{
  open_fails, tell_death, tell_flag, open_live, tell_handle, tell_life, start_loop, refuse_filter,
  packet, end_loop, close, call_back, wake, tell_end,
}
use mini_wireshark.Threads.Solo.{
  Solo, begin, work, run_call, stop, IsRows, no_row, one_row, my_packet_handler-IsRows,
}

-- The values that the queued calls will give wk_pp, in order.
abbrev pub handles : List Post → List Handle
handles [] = []
handles (queued (set_wk_pp x) ∷ ps) = x ∷ handles ps
handles (queued m ∷ ps) = handles ps
handles (blocking i ∷ ps) = none ∷ handles ps

handles-append : (ps qs : List Post) → handles (ps ++ qs) ≡ handles ps ++ handles qs
handles-append [] qs = refl
handles-append (queued (set_wk_pp x) ∷ ps) qs = rw (handles-append ps qs) refl
handles-append (queued (Event.update_md r) ∷ ps) qs = handles-append ps qs
handles-append (queued (Event.dump_push_back d) ∷ ps) qs = handles-append ps qs
handles-append (queued (Event.set_wk_life b) ∷ ps) qs = handles-append ps qs
handles-append (queued (Event.set_wk_flag b) ∷ ps) qs = handles-append ps qs
handles-append (blocking i ∷ ps) qs = rw (handles-append ps qs) refl

handles-rows : {ms : List Event} → IsRows ms → handles (map queued ms) ≡ []
handles-rows no_row = refl
handles-rows (one_row r d) = refl

is_blocked-append :
    (i : ℕ) (ps qs : List Post) → is_blocked i (ps ++ qs) ≡ (is_blocked i ps || is_blocked i qs)
is_blocked-append i [] qs = refl
is_blocked-append i (queued m ∷ ps) qs = is_blocked-append i ps qs
is_blocked-append i (blocking j ∷ ps) qs = ground (arith, is_blocked-append i ps qs)

-- No call for wk_pp waits, and it is `x`; or one does, that will make it `x`.
abbrev pub Settled : Shared → Handle → Type 0
Settled s x = (handles s.queue ≡ []) × (s.pcap.wk_pp ≡ x)

abbrev pub Held : Shared → ℕ → Type 0
Held s h = Settled s (some h) ⊎ ((handles s.queue ≡ some h ∷ []) × (s.pcap.wk_pp ≡ none))

-- While the thread waits in its blocking call: the call has run, or the handle is still there.
abbrev pub Returning : ℕ → Shared → ℕ → Type 0
Returning i s h =
    Settled s none
    ⊎ (((is_blocked i s.queue ≡ true) × (handles s.queue ≡ none ∷ []) × (s.pcap.wk_pp ≡ some h))
        ⊎ ((is_blocked i s.queue ≡ true)
            × (handles s.queue ≡ some h ∷ none ∷ [])
            × (s.pcap.wk_pp ≡ none)))

-- What the thread has to do with wk_pp.
pub data Phase : Type 0 where
  quiet : Phase
  fresh held shut returning : ℕ → Phase

abbrev pub phase : Pc → Phase
phase (opened wk h) = fresh h
phase (announced wk h) = held h
phase (filtering wk h) = held h
phase (looping wk h) = held h
phase (leaving wk h) = held h
phase (closed wk h) = shut h
phase (waiting wk h) = returning h
phase p = quiet

abbrev pub Tracked : ℕ → Shared → Phase → Type 0
Tracked i s quiet = Settled s none
Tracked i s (fresh h) = Settled s none × (s.is_open h ≡ true)
Tracked i s (held h) = Held s h × (s.is_open h ≡ true)
Tracked i s (shut h) = Held s h
Tracked i s (returning h) = Returning i s h

-- What wk_pp and its pending calls are, by where the thread stands; and that its handle is open.
abbrev pub Tracks : ℕ → Shared → Pc → Type 0
Tracks i s p = Tracked i s (phase p)

module _ (e : Endian) (q : Qt) (i : ℕ) where
  -- A step of the thread keeps it.
  pub Move-Tracks :
      {s t : Shared} {p p' : Pc} {packets : List (Header × Bytes)}
      → Move e q i s p packets t p'
      → Tracks i s p
      → Tracks i t p'
  Move-Tracks open_fails c = c
  Move-Tracks {s} tell_death c =
      ground (arith, handles-append s.queue (queued (Event.set_wk_life false) ∷ []))
  Move-Tracks {s} tell_flag c =
      ground (arith, handles-append s.queue (queued (Event.set_wk_flag false) ∷ []))
  Move-Tracks (open_live h unused) c = (c, ground arith)
  Move-Tracks {s} (tell_handle {h}) c =
      ground (arith, handles-append s.queue (queued (set_wk_pp (some h)) ∷ []))
  Move-Tracks {s} tell_life c =
      ground (arith, handles-append s.queue (queued (Event.set_wk_life true) ∷ []))
  Move-Tracks start_loop c = c
  Move-Tracks (refuse_filter some_filter) c = c
  Move-Tracks {s} (packet {posted} header bytes done) c = ground (
    arith,
    handles-append s.queue (map queued posted),
    handles-rows (my_packet_handler-IsRows e q _ _ header bytes posted done),
  )
  Move-Tracks end_loop c = c
  Move-Tracks close c = c.0
  Move-Tracks {s} call_back c = ground (
    arith,
    handles-append s.queue (blocking i ∷ []),
    is_blocked-append i s.queue (blocking i ∷ []),
  )
  Move-Tracks (wake free) c = ground arith
  Move-Tracks {s} tell_end c =
      ground (arith, handles-append s.queue (queued (Event.set_wk_life false) ∷ []))
