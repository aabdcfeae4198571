-- ===== src/Threads/Lists.antt =====
-- What a session leaves in the list, in any interleaving of the thread, the queue and stop clicks.
pub mod Session
use mini_wireshark.Base.{
  ℕ, ◌≡◌, refl, ap, Bool, arith, ◌∙◌, true, false, List, [], ◌∷◌, ◌++◌, map, Option, none, some,
  >>=-eq-some, append-nil,
}
use mini_wireshark.Qt.{Qt}
use mini_wireshark.Packet.Memory.{Bytes, Endian}
use mini_wireshark.Packet.Rows.{Header}
use mini_wireshark.Worker.Event.{Worker, Event, set_wk_pp, set_wk_life, set_wk_flag}
use mini_wireshark.Worker.Handler.{my_packet_handler}
use mini_wireshark.Pcap.State
use mini_wireshark.Pcap.State.{Pcap, deliver, deliver_all}
use mini_wireshark.Pcap.Offline.{packet_func, read_loop}
use mini_wireshark.Pcap.Live.{absorb, packet_func-absorb, deliver_all-append}
use mini_wireshark.Pcap.Sessions.{SameList, deliver_all-SameList}
use mini_wireshark.Pcap.Control.{stop_th, stop_handle}
use mini_wireshark.Threads.Solo.{Solo, begin, work, run_call, stop}
use mini_wireshark.Threads.System.{
  Post, queued, event_of, Shared, Pc, starting, failed_late, opened, announced, filtering, looping,
  gone, post, Move, open_fails, tell_death, tell_flag, open_live, tell_handle, tell_life,
  start_loop, refuse_filter, packet, end_loop, close, call_back, wake, tell_end, blocking,
}

-- The object when all of the queue has run.
abbrev pub settled : Shared → Pcap
settled s = deliver_all s.pcap (map event_of s.queue)

-- The counter of the thread's worker, where it has one.
abbrev pub worker_of : Pc → Option Worker
worker_of (starting wk) = some wk
worker_of (opened wk h) = some wk
worker_of (announced wk h) = some wk
worker_of (filtering wk h) = some wk
worker_of (looping wk h) = some wk
worker_of p = none

abbrev pub Counts : Option Worker → ℕ → Type 0
Counts none n = Unit
Counts (some wk) n = wk.num ≡ n

pub map-append : (ps qs : List Post) → map event_of (ps ++ qs) ≡ map event_of ps ++ map event_of qs
map-append [] qs = refl
map-append (p ∷ ps) qs = ap (◌∷◌ (event_of p)) (map-append ps qs)

settled-post :
    (s : Shared) (ps : List Post) → settled (post s ps) ≡ deliver_all (settled s) (map event_of ps)
settled-post s ps =
    ap (deliver_all s.pcap) (map-append s.queue ps)
    ∙ deliver_all-append s.pcap (map event_of s.queue) (map event_of ps)

pub map-queued : (ms : List Event) → map event_of (map queued ms) ≡ ms
map-queued [] = refl
map-queued (m ∷ ms) = ap (◌∷◌ m) (map-queued ms)

pub SameList-trans : (s t u : Pcap) → SameList s t → SameList t u → SameList s u
SameList-trans s t u a b = (a.0 ∙ b.0, a.1 ∙ b.1)

-- The thread has told that it is gone.
abbrev pub is_over : Pc → Bool
is_over (failed_late wk) = true
is_over gone = true
is_over p = false

abbrev pub Told : Pc → Pcap → Type 0
Told p s = is_over p ≡ true → s.wk_life ≡ false

module _ (e : Endian) (q : Qt) where
  read_loop-snoc :
      (s t u : Pcap) (ps : List (Header × Bytes)) (h : Header) (p : Bytes)
      → read_loop e q s ps ≡ some t
      → packet_func e q t h p ≡ some u
      → read_loop e q s (ps ++ (h, p) ∷ []) ≡ some u
  unfolding read_loop
  read_loop-snoc s t u [] h p first last = let same : s ≡ t = cc first in rw (same, last) refl
  read_loop-snoc s t u ((h', p') ∷ ps) h p first last =
      let (s', step, later) =
        >>=-eq-some (packet_func e q s h' p') (λ s'. read_loop e q s' ps) first in
      rw step (read_loop-snoc s' t u ps h p later last)

  -- What reading the packets seen so far gives, and the object once its queue has run.
  pub record InStep (s0 : Pcap) (seen : List (Header × Bytes)) (s : Shared) (p : Pc) : Type 0 where
    read : Pcap
    is_read : read_loop e q s0 seen ≡ some read
    same : SameList (settled s) read
    counted : Counts (worker_of p) read.num
    told : Told p (settled s)

  -- A step with no packet.
  silent :
      (s0 : Pcap) {seen : List (Header × Bytes)} {s t : Shared} {p p' : Pc}
      → InStep s0 seen s p
      → SameList (settled t) (settled s)
      → ((n : ℕ) → Counts (worker_of p) n → Counts (worker_of p') n)
      → Told p' (settled t)
      → InStep s0 (seen ++ []) t p'
  silent s0 {seen} {s} {t} c list count told = record {
    read = c.read;
    is_read = rw (append-nil seen) c.is_read;
    same = SameList-trans (settled t) (settled s) c.read list c.same;
    counted = count c.read.num c.counted;
    told = told;
  }

  handled :
      {seen : List (Header × Bytes)} {wk' : Worker} {k : ℕ} (s0 : Pcap) (s : Shared) (wk : Worker)
      (h : Header) (p : Bytes) (posted : List Event)
      → my_packet_handler e q wk h p ≡ some (wk', posted)
      → InStep s0 seen s (looping wk k)
      → InStep s0 (seen ++ (h, p) ∷ []) (post s (map queued posted)) (looping wk' k)
  handled {seen} {wk'} s0 s wk h p posted done c =
      let next : Pcap = record (deliver_all c.read posted) { num = wk'.num } in
      let same_worker : my_packet_handler e q (record wk { num = c.read.num }) h p
          ≡ some (wk', posted) =
        rw (← c.counted) done in
      let one : packet_func e q c.read h p ≡ some next =
        packet_func-absorb e q c.read wk h p ∙ ap (absorb c.read) same_worker in
      let run : settled (post s (map queued posted)) ≡ deliver_all (settled s) posted =
        settled-post s (map queued posted) ∙ ap (deliver_all (settled s)) (map-queued posted) in
      record {
        read = next;
        is_read = read_loop-snoc s0 c.read next seen h p c.is_read one;
        same = rw run (deliver_all-SameList (settled s) c.read posted c.same);
        counted = refl;
        told = λ o. cc;
      }

  module _ (i : ℕ) (s0 : Pcap) where
    pub Move-InStep :
        {seen packets : List (Header × Bytes)} {s t : Shared} {p p' : Pc}
        → Move e q i s p packets t p'
        → InStep s0 seen s p
        → InStep s0 (seen ++ packets) t p'
    unfolding deliver_all deliver State.set_wk_pp State.set_wk_life State.set_wk_flag
    Move-InStep open_fails c = silent s0 c (refl, refl) (λ n h. tt) (λ o. cc)
    Move-InStep {s} tell_death c =
        silent s0 c (rw (settled-post s (queued (set_wk_life false) ∷ [])) (refl, refl)) (λ n h. tt)
          (λ o. rw (settled-post s (queued (set_wk_life false) ∷ [])) refl)
    Move-InStep {s} tell_flag c =
        silent s0 c (rw (settled-post s (queued (set_wk_flag false) ∷ [])) (refl, refl)) (λ n h. tt)
          (λ o. rw (settled-post s (queued (set_wk_flag false) ∷ [])) (c.told refl))
    Move-InStep (open_live h unused) c = silent s0 c (refl, refl) (λ n h. h) (λ o. cc)
    Move-InStep {s} (tell_handle {h}) c =
        silent s0 c (rw (settled-post s (queued (set_wk_pp (some h)) ∷ [])) (refl, refl)) (λ n h. h)
          (λ o. cc)
    Move-InStep {s} tell_life c =
        silent s0 c (rw (settled-post s (queued (set_wk_life true) ∷ [])) (refl, refl)) (λ n h. h)
          (λ o. cc)
    Move-InStep start_loop c = silent s0 c (refl, refl) (λ n h. h) (λ o. cc)
    Move-InStep (refuse_filter some_filter) c = silent s0 c (refl, refl) (λ n h. tt) (λ o. cc)
    Move-InStep {s} (packet {wk} {posted} header bytes done) c =
        handled s0 s wk header bytes posted done c
    Move-InStep end_loop c = silent s0 c (refl, refl) (λ n h. tt) (λ o. cc)
    Move-InStep close c = silent s0 c (refl, refl) (λ n h. tt) (λ o. cc)
    Move-InStep {s} call_back c =
        silent s0 c (rw (settled-post s (blocking i ∷ [])) (refl, refl)) (λ n h. tt) (λ o. cc)
    Move-InStep (wake free) c = silent s0 c (refl, refl) (λ n h. tt) (λ o. cc)
    Move-InStep {s} tell_end c =
        silent s0 c (rw (settled-post s (queued (set_wk_life false) ∷ [])) (refl, refl)) (λ n h. tt)
          (λ o. rw (settled-post s (queued (set_wk_life false) ∷ [])) refl)
