-- ===== src/Threads/Ending.antt =====
-- The end of a capture thread, once pcap_loop has returned or the interface did not open: the calls
-- that it posts, the one that it waits for, and the queue that runs them.
use mini_wireshark.Base.{
  ℕ, zero, suc, ◌+◌, ◌<◌, ◌≡◌, refl, true, false, ◌⊎◌, inl, inr, Bool-cases, List, [], ◌∷◌, ◌++◌,
  arith, length, ap,
}
use mini_wireshark.Qt.{Qt}
use mini_wireshark.Packet.Memory.{Bytes, Endian}
use mini_wireshark.Packet.Rows.{Header}
use mini_wireshark.Worker.Event
use mini_wireshark.Pcap.State.{deliver}
use mini_wireshark.Threads.System.{
  Post, queued, blocking, event_of, is_blocked, Shared, Pc, starting, unborn, opened, announced,
  filtering, looping, open_fails, open_live, tell_handle, tell_life, start_loop, refuse_filter,
  packet, end_loop, failed, failed_late, leaving, closed, waiting, woken, gone, Move, tell_death,
  tell_flag, close, call_back, wake, tell_end,
}

-- A turn of the thread or of the queue.
pub data Turn (e : Endian) (q : Qt) (i : ℕ) (s : Shared) (p : Pc) : Shared → Pc → Type 0 where
  thread :
      {packets : List (Header × Bytes)} {t : Shared} {p' : Pc}
      → Move e q i s p packets t p'
      → Turn e q i s p t p'
  call :
      (x : Post) (rest : List Post)
      → s.queue ≡ x ∷ rest
      → Turn e q i s p (record s { pcap = deliver s.pcap (event_of x); queue = rest }) p

-- Whatever turns are taken, the thread is gone and the queue empty after finitely many, and until
-- then there is one to take.
pub data IsInevitable (e : Endian) (q : Qt) (i : ℕ) : Shared → Pc → Type 0 where
  over : {s : Shared} → s.queue ≡ [] → IsInevitable e q i s gone
  onward :
      {s : Shared} {p : Pc} (t : Shared) (p' : Pc)
      → Turn e q i s p t p'
      → ((t : Shared) (p' : Pc) → Turn e q i s p t p' → IsInevitable e q i t p')
      → IsInevitable e q i s p

-- pcap_loop has returned, or pcap_open_live has failed.
abbrev pub IsEnding : Pc → Type 0
IsEnding (failed wk) = Unit
IsEnding (failed_late wk) = Unit
IsEnding (leaving wk h) = Unit
IsEnding (closed wk h) = Unit
IsEnding (waiting wk h) = Unit
IsEnding (woken wk) = Unit
IsEnding gone = Unit
IsEnding p = ⊥

-- The steps that are left to the thread.
abbrev left : Pc → ℕ
left (failed wk) = 2
left (failed_late wk) = 1
left (leaving wk h) = 4
left (closed wk h) = 3
left (waiting wk h) = 2
left (woken wk) = 1
left p = 0

-- Each step of the thread posts at most one call.
abbrev measure : Shared → Pc → ℕ
measure s p = left p + left p + length s.queue

length-post : (ps : List Post) (x : Post) → length (ps ++ x ∷ []) ≡ suc (length ps)
length-post [] x = refl
length-post (p ∷ ps) x = ground (arith, length-post ps x)

module _ (e : Endian) (q : Qt) (i : ℕ) where
  Move-lowers :
      {s t : Shared} {p p' : Pc} {packets : List (Header × Bytes)}
      → Move e q i s p packets t p'
      → IsEnding p
      → IsEnding p' × (measure t p' < measure s p)
  Move-lowers {s} tell_death ending =
      (tt, omega (arith, length-post s.queue (queued (Event.set_wk_life false))))
  Move-lowers {s} tell_flag ending =
      (tt, omega (arith, length-post s.queue (queued (Event.set_wk_flag false))))
  Move-lowers close ending = (tt, omega arith)
  Move-lowers {s} call_back ending = (tt, omega (arith, length-post s.queue (blocking i)))
  Move-lowers (wake free) ending = (tt, omega arith)
  Move-lowers {s} tell_end ending =
      (tt, omega (arith, length-post s.queue (queued (Event.set_wk_life false))))
  Move-lowers open_fails ending = absurd ending
  Move-lowers (open_live h unused) ending = absurd ending
  Move-lowers tell_handle ending = absurd ending
  Move-lowers tell_life ending = absurd ending
  Move-lowers start_loop ending = absurd ending
  Move-lowers (refuse_filter some_filter) ending = absurd ending
  Move-lowers (packet header bytes done) ending = absurd ending
  Move-lowers end_loop ending = absurd ending

  Turn-lowers :
      {s t : Shared} {p p' : Pc}
      → Turn e q i s p t p'
      → IsEnding p
      → IsEnding p' × (measure t p' < measure s p)
  Turn-lowers (thread mv) ending = Move-lowers mv ending
  Turn-lowers {s} (call x rest head) ending = (ending, omega (arith, ap (λ ps. length ps) head))

  -- The queue can move on, unless it is empty.
  queue-Turn :
      (s : Shared) (p : Pc) (ps : List Post)
      → s.queue ≡ ps
      → (s.queue ≡ []) ⊎ ((t : Shared) × (p' : Pc) × Turn e q i s p t p')
  queue-Turn s p [] is = inl is
  queue-Turn s p (x ∷ rest) is = inr (_, p, call x rest is)

  -- The thread can move on, unless it is gone or waits for a call in the queue.
  some-Turn :
      (s : Shared) (p : Pc)
      → IsEnding p
      → ((p ≡ gone) × (s.queue ≡ [])) ⊎ ((t : Shared) × (p' : Pc) × Turn e q i s p t p')
  some-Turn s (failed wk) ending = inr (_, _, thread tell_death)
  some-Turn s (failed_late wk) ending = inr (_, _, thread tell_flag)
  some-Turn s (leaving wk h) ending = inr (_, _, thread close)
  some-Turn s (closed wk h) ending = inr (_, _, thread call_back)
  some-Turn s (waiting wk h) ending = elim (Bool-cases (is_blocked i s.queue)) [
    | inl blocked ↦ elim (queue-Turn s (waiting wk h) s.queue refl) [
      | inl empty ↦ absurd (no_block blocked empty)
      | inr turn ↦ inr turn
    ]
    | inr free ↦ inr (_, _, thread (wake free))
  ]
    where
      no_block : is_blocked i s.queue ≡ true → s.queue ≡ [] → ⊥
      no_block blocked empty = let b = (rw empty at blocked) in cc
  some-Turn s (woken wk) ending = inr (_, _, thread tell_end)
  some-Turn s gone ending = elim (queue-Turn s gone s.queue refl) [
    | inl empty ↦ inl (refl, empty)
    | inr turn ↦ inr turn
  ]
  some-Turn s unborn ending = absurd ending
  some-Turn s (starting wk) ending = absurd ending
  some-Turn s (opened wk h) ending = absurd ending
  some-Turn s (announced wk h) ending = absurd ending
  some-Turn s (filtering wk h) ending = absurd ending
  some-Turn s (looping wk h) ending = absurd ending

  IsInevitable-within :
      (n : ℕ) (s : Shared) (p : Pc) → measure s p < n → IsEnding p → IsInevitable e q i s p
  IsInevitable-within zero s p small ending = absurd (omega arith)
  IsInevitable-within (suc n) s p small ending = elim (some-Turn s p ending) [
    | inl (is_gone, empty) ↦ rw is_gone (over empty)
    | inr (t, p', turn) ↦ onward t p' turn λ t p' turn.
        IsInevitable-within n t p' (omega (arith, (Turn-lowers turn ending).1))
          (Turn-lowers turn ending).0
  ]

  -- Once pcap_loop has returned, or the interface did not open: in whatever order the thread and
  -- the queue take their turns, the thread is gone and the queue is empty after finitely many, and
  -- at no time before are both stuck; the blocking call is no deadlock.
  pub IsEnding-IsInevitable : (s : Shared) (p : Pc) → IsEnding p → IsInevitable e q i s p
  IsEnding-IsInevitable s p ending =
      IsInevitable-within (suc (measure s p)) s p (omega arith) ending
