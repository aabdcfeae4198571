-- ===== src/Threads/Handles/Calls.antt =====
-- What a call from the queue and a stop click do to wk_pp and to what the queue holds for it.
use mini_wireshark.Base.{ℕ, ◌≡◌, refl, ap, List, ◌∷◌, none, some, arith}
use mini_wireshark.Worker.Event.{Event, Handle, set_wk_pp}
use mini_wireshark.Pcap.State.{Pcap, deliver}
use mini_wireshark.Pcap.State
use mini_wireshark.Pcap.Control.{stop_th, stop_handle}
use mini_wireshark.Threads.System.{Post, queued, blocking, event_of, is_blocked, Shared}
use mini_wireshark.Threads.Handles.{
  Settled, Held, Returning, Phase, Tracked, handles, quiet, fresh, held, shut, returning,
}

-- The head of the queue either leaves wk_pp and what the queue holds for it, or is the next value.
data HeadCase (i : ℕ) (p : Pcap) (x : Post) (rest : List Post) : Type 0 where
  other :
      handles (x ∷ rest) ≡ handles rest
      → (deliver p (event_of x)).wk_pp ≡ p.wk_pp
      → is_blocked i (x ∷ rest) ≡ is_blocked i rest
      → HeadCase i p x rest
  handle :
      (y : ℕ)
      → handles (x ∷ rest) ≡ some y ∷ handles rest
      → (deliver p (event_of x)).wk_pp ≡ some y
      → is_blocked i (x ∷ rest) ≡ is_blocked i rest
      → HeadCase i p x rest
  no_handle :
      handles (x ∷ rest) ≡ none ∷ handles rest
      → (deliver p (event_of x)).wk_pp ≡ none
      → HeadCase i p x rest

head_case : (i : ℕ) (p : Pcap) (x : Post) (rest : List Post) → HeadCase i p x rest
unfolding deliver State.set_wk_pp State.update_md State.dump_push_back State.set_wk_life
    State.set_wk_flag
head_case i p (queued (set_wk_pp none)) rest = no_handle refl refl
head_case i p (queued (set_wk_pp (some h))) rest = handle h refl refl refl
head_case i p (queued (Event.update_md r)) rest = other refl refl refl
head_case i p (queued (Event.dump_push_back d)) rest = other refl refl refl
head_case i p (queued (Event.set_wk_life b)) rest = other refl refl refl
head_case i p (queued (Event.set_wk_flag b)) rest = other refl refl refl
head_case i p (blocking j) rest = no_handle refl refl

-- Running a queued call.
abbrev pub ran : Shared → Post → List Post → Shared
ran s x rest = record s { pcap = deliver s.pcap (event_of x); queue = rest }

module _ (i : ℕ) (s : Shared) (x : Post) (rest : List Post) (head : s.queue ≡ x ∷ rest) where
  ran-Settled : (v : Handle) → HeadCase i s.pcap x rest → Settled s v → Settled (ran s x rest) v
  ran-Settled v (other a b d) c = ground (arith, ap handles head)
  ran-Settled v (handle y a b d) c = ground (arith, ap handles head)
  ran-Settled v (no_handle a b) c = ground (arith, ap handles head)

  ran-Held : (h : ℕ) → HeadCase i s.pcap x rest → Held s h → Held (ran s x rest) h
  ran-Held h (other a b d) c = ground (arith, ap handles head)
  ran-Held h (handle y a b d) c = ground (arith, ap handles head)
  ran-Held h (no_handle a b) c = ground (arith, ap handles head)

  ran-Returning :
      (h : ℕ) → HeadCase i s.pcap x rest → Returning i s h → Returning i (ran s x rest) h
  ran-Returning h (other a b d) c = ground (arith, ap handles head, ap (is_blocked i) head)
  ran-Returning h (handle y a b d) c = ground (arith, ap handles head, ap (is_blocked i) head)
  ran-Returning h (no_handle a b) c = ground (arith, ap handles head, ap (is_blocked i) head)

  pub ran-Tracked : (p : Phase) → Tracked i s p → Tracked i (ran s x rest) p
  ran-Tracked quiet c = ran-Settled none (head_case i s.pcap x rest) c
  ran-Tracked (fresh h) c = (ran-Settled none (head_case i s.pcap x rest) c.0, c.1)
  ran-Tracked (held h) c = (ran-Held h (head_case i s.pcap x rest) c.0, c.1)
  ran-Tracked (shut h) c = ran-Held h (head_case i s.pcap x rest) c
  ran-Tracked (returning h) c = ran-Returning h (head_case i s.pcap x rest) c

stop_th-wk_pp : (p : Pcap) → (stop_th p).0.wk_pp ≡ p.wk_pp
unfolding stop_th stop_handle State.set_stop_flag State.set_wk_flag
stop_th-wk_pp p = ground arith

-- pcap_breakloop gets the handle that is kept.
pub stop_th-handle : (p : Pcap) → (stop_th p).1 ≡ p.wk_pp
unfolding stop_th stop_handle
stop_th-handle p = given p.wk_pp
  where
    given : (h : Handle) → (stop_handle p h).1 ≡ h
    given none = refl
    given (some h) = refl

abbrev pub stopped : Shared → Shared
stopped s = record s { pcap = (stop_th s.pcap).0 }

pub stop-Tracked : (i : ℕ) (s : Shared) (p : Phase) → Tracked i s p → Tracked i (stopped s) p
stop-Tracked i s quiet c = rw (stop_th-wk_pp s.pcap) c
stop-Tracked i s (fresh h) c = rw (stop_th-wk_pp s.pcap) c
stop-Tracked i s (held h) c = rw (stop_th-wk_pp s.pcap) c
stop-Tracked i s (shut h) c = rw (stop_th-wk_pp s.pcap) c
stop-Tracked i s (returning h) c = rw (stop_th-wk_pp s.pcap) c
