-- ===== src/Threads/Handles/Stop.antt =====
-- The handle that a stop click uses, in every state of a session.
use mini_wireshark.Base.{ℕ, ◌≡◌, ap, sym, ◌∙◌, ◌⊎◌, inl, inr, true, List, [], none, some, arith}
use mini_wireshark.Qt.{Qt}
use mini_wireshark.Packet.Memory.{Bytes, Endian}
use mini_wireshark.Packet.Rows.{Header}
use mini_wireshark.Worker.Event.{Worker}
use mini_wireshark.Pcap.Control.{stop_th}
use mini_wireshark.Threads.System.{
  Shared, Pc, unborn, starting, failed, failed_late, opened, announced, filtering, looping, leaving,
  closed, waiting, woken, gone,
}
use mini_wireshark.Threads.Solo.{Solo, begin, work, run_call, stop}
use mini_wireshark.Threads.Handles.Calls.{stop_th-handle, ran-Tracked, stop-Tracked}
use mini_wireshark.Threads.Handles.{Settled, Held, phase, Tracks, handles, Move-Tracks}

-- A capture can begin: no call waits and no handle is kept.
pub record IsIdle (s : Shared) : Type 0 where
  pub no_calls : s.queue ≡ []
  pub no_handle : s.pcap.wk_pp ≡ none

-- The thread has closed its handle, and its blocking call has not run.
abbrev pub IsClosing : Pc → Type 0
IsClosing (closed wk h) = Unit
IsClosing (waiting wk h) = Unit
IsClosing p = ⊥

module _ (s : Shared) (h : ℕ) (kept : s.pcap.wk_pp ≡ some h) where
  not-Settled : Settled s none → ⊥
  not-Settled c = cc (kept, c.1)

  Held-same : (k : ℕ) → Held s k → h ≡ k
  Held-same k c = ground arith

  Held-open : (k : ℕ) → Held s k → s.is_open k ≡ true → s.is_open h ≡ true
  Held-open k c o = rw (Held-same k c) o

  open_or_IsClosing : (i : ℕ) (p : Pc) → Tracks i s p → (s.is_open h ≡ true) ⊎ IsClosing p
  open_or_IsClosing i (opened wk k) c = absurd (not-Settled c.0)
  open_or_IsClosing i (announced wk k) c = inl (Held-open k c.0 c.1)
  open_or_IsClosing i (filtering wk k) c = inl (Held-open k c.0 c.1)
  open_or_IsClosing i (looping wk k) c = inl (Held-open k c.0 c.1)
  open_or_IsClosing i (leaving wk k) c = inl (Held-open k c.0 c.1)
  open_or_IsClosing i (closed wk k) c = inr tt
  open_or_IsClosing i (waiting wk k) c = inr tt
  open_or_IsClosing i unborn c = absurd (not-Settled c)
  open_or_IsClosing i (starting wk) c = absurd (not-Settled c)
  open_or_IsClosing i (failed wk) c = absurd (not-Settled c)
  open_or_IsClosing i (failed_late wk) c = absurd (not-Settled c)
  open_or_IsClosing i (woken wk) c = absurd (not-Settled c)
  open_or_IsClosing i gone c = absurd (not-Settled c)

module _ (e : Endian) (q : Qt) (i : ℕ) (s0 : Shared) (wk0 : Worker) (idle : IsIdle s0) where
  pub Solo-Tracks :
      {seen : List (Header × Bytes)} {s : Shared} {p : Pc}
      → Solo e q i s0 wk0 seen s p
      → Tracks i s p
  Solo-Tracks begin = (ap handles idle.no_calls, idle.no_handle)
  Solo-Tracks (work r mv) = Move-Tracks e q i mv (Solo-Tracks r)
  Solo-Tracks (run_call {s} {p} x rest r head) =
      ran-Tracked i s x rest head (phase p) (Solo-Tracks r)
  Solo-Tracks (stop {s} {p} r) = stop-Tracked i s (phase p) (Solo-Tracks r)

  -- While one thread captures, in any interleaving with stop clicks: the handle that the stop
  -- button passes to pcap_breakloop is open, unless the thread stands between its pcap_close and
  -- the end of its blocking call.
  pub stop_th-open :
      {seen : List (Header × Bytes)} {s : Shared} {p : Pc} {h : ℕ}
      → Solo e q i s0 wk0 seen s p
      → (stop_th s.pcap).1 ≡ some h
      → (s.is_open h ≡ true) ⊎ IsClosing p
  stop_th-open {s} {p} {h} r used =
      open_or_IsClosing s h (sym (stop_th-handle s.pcap) ∙ used) i p (Solo-Tracks r)
