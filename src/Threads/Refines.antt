-- ===== src/Threads/Refines.antt =====
-- Worker::set_Capture as the steps of a thread, against Worker::set_Capture as one function from
-- libpcap's answers to the calls that it queues.
use mini_wireshark.Base.{
  ℕ, ◌≡◌, refl, sym, ◌∙◌, true, false, List, [], ◌∷◌, ◌++◌, map, none, some, arith, append_assoc,
  append-nil, >>=-eq-some,
}
use mini_wireshark.Qt.{Qt}
use mini_wireshark.Packet.Memory.{Bytes, Endian}
use mini_wireshark.Packet.Rows.{Header}
use mini_wireshark.Worker.Event.{Worker, Event, set_wk_pp, set_wk_life, set_wk_flag}
use mini_wireshark.Worker.Handler.{my_packet_handler, capture_loop}
use mini_wireshark.Worker.Session.{Answers, delivered, run_handle, run_open, set_capture}
use mini_wireshark.Threads.System.{
  Post, queued, event_of, Shared, Pc, unborn, starting, failed, failed_late, opened, announced,
  filtering, looping, leaving, closed, waiting, woken, gone, Move, open_fails, tell_death,
  tell_flag, open_live, tell_handle, tell_life, start_loop, refuse_filter, packet, end_loop, close,
  call_back, wake, tell_end,
}
use mini_wireshark.Threads.Lists.{map-queued}

-- A thread's own steps from its start on, whatever the others do to the shared state in between:
-- the packets that it handled, and the calls that it added to the queue, in their order.
pub data Trace (e : Endian) (q : Qt) (i : ℕ) (wk0 : Worker)
    : List (Header × Bytes) → List Event → Pc → Type 0 where
  at_start : Trace e q i wk0 [] [] (starting wk0)
  and_then :
      {seen packets : List (Header × Bytes)} {posted : List Event} {s t : Shared} {p p' : Pc}
      (ps : List Post)
      → Trace e q i wk0 seen posted p
      → Move e q i s p packets t p'
      → t.queue ≡ s.queue ++ ps
      → Trace e q i wk0 (seen ++ packets) (posted ++ map event_of ps) p'

same_tail : {A : Type 0} (xs ys zs : List A) → xs ++ ys ≡ xs ++ zs → ys ≡ zs
same_tail [] ys zs h = h
same_tail (x ∷ xs) ys zs h = same_tail xs ys zs (cc h)

module _ (e : Endian) (q : Qt) where
  -- A capture thread posts only; it changes nothing in the object.
  pub Move-pcap :
      {i : ℕ} {s t : Shared} {p p' : Pc} {packets : List (Header × Bytes)}
      → Move e q i s p packets t p'
      → t.pcap ≡ s.pcap
  Move-pcap open_fails = refl
  Move-pcap tell_death = refl
  Move-pcap tell_flag = refl
  Move-pcap (open_live h unused) = refl
  Move-pcap tell_handle = refl
  Move-pcap tell_life = refl
  Move-pcap start_loop = refl
  Move-pcap (refuse_filter some_filter) = refl
  Move-pcap (packet header bytes done) = refl
  Move-pcap end_loop = refl
  Move-pcap close = refl
  Move-pcap call_back = refl
  Move-pcap (wake free) = refl
  Move-pcap tell_end = refl

  capture_loop-snoc :
      (wk wk1 wk2 : Worker) (seen : List (Header × Bytes)) (h : Header) (p : Bytes)
      (looped posted : List Event)
      → capture_loop e q wk seen ≡ some (wk1, looped)
      → my_packet_handler e q wk1 h p ≡ some (wk2, posted)
      → capture_loop e q wk (seen ++ (h, p) ∷ []) ≡ some (wk2, looped ++ posted)
  unfolding capture_loop
  capture_loop-snoc wk wk1 wk2 [] h p looped posted run step =
      let same : wk ≡ wk1 = cc run in
      let none_yet : looped ≡ [] = cc run in rw (same, step, none_yet, append-nil posted) refl
  capture_loop-snoc wk wk1 wk2 ((h', p') ∷ rest) h p looped posted run step =
      let ((wk', first), one, behind) = >>=-eq-some (my_packet_handler e q wk h' p') _ run in
      let ((wk'', more), two, last) = >>=-eq-some (capture_loop e q wk' rest) _ behind in
      let same : wk'' ≡ wk1 = cc last in
      let all : first ++ more ≡ looped = cc last in
      rw
        (
          one,
          capture_loop-snoc wk' wk1 wk2 rest h p more posted (rw (← same) two) step,
          ← append_assoc first more posted,
          all,
        )
        refl

  -- pcap_loop has delivered `seen` to the worker of a capture with handle h.
  record Looped (wk0 : Worker) (h : ℕ) (wk : Worker) (seen : List (Header × Bytes))
      (posted : List Event) : Type 0 where
    looped : List Event
    run : capture_loop e q (record wk0 { pp = some h }) seen ≡ some (wk, looped)
    told : posted ≡ set_wk_pp (some h) ∷ set_wk_life true ∷ looped

  -- libpcap answers that lead a thread to a result.
  IsSession : Worker → List (Header × Bytes) → List Event → Type 0
  IsSession wk0 seen posted =
      (a : Answers) × (wk' : Worker) × (delivered wk0.bfs_ft a ≡ seen)
      × (set_capture e q wk0 a ≡ some (wk', posted))

  abbrev answers : ℕ → List (Header × Bytes) → Answers
  answers h seen = record { opened = some h; compiled = true; filtered = true; packets = seen }

  delivered-answers :
      (wk0 : Worker) (h : ℕ) (seen : List (Header × Bytes))
      → delivered wk0.bfs_ft (answers h seen) ≡ seen
  unfolding delivered
  delivered-answers wk0 h seen = ground arith

  -- What a thread has handled and posted where it stands.
  abbrev At : Worker → List (Header × Bytes) → List Event → Pc → Type 0
  At wk0 seen posted unborn = ⊥
  At wk0 seen posted (starting wk) = (wk ≡ wk0) × (seen ≡ []) × (posted ≡ [])
  At wk0 seen posted (failed wk) = (wk ≡ wk0) × (seen ≡ []) × (posted ≡ [])
  At wk0 seen posted (failed_late wk) = (seen ≡ []) × (posted ≡ set_wk_life false ∷ [])
  At wk0 seen posted (opened wk h) = (wk ≡ record wk0 { pp = some h }) × (seen ≡ []) × (posted ≡ [])
  At wk0 seen posted (announced wk h) =
      (wk ≡ record wk0 { pp = some h }) × (seen ≡ []) × (posted ≡ set_wk_pp (some h) ∷ [])
  At wk0 seen posted (filtering wk h) =
      (wk ≡ record wk0 { pp = some h })
      × (seen ≡ [])
      × (posted ≡ set_wk_pp (some h) ∷ set_wk_life true ∷ [])
  At wk0 seen posted (looping wk h) = Looped wk0 h wk seen posted
  At wk0 seen posted (leaving wk h) = Looped wk0 h wk seen posted
  At wk0 seen posted (closed wk h) = Looped wk0 h wk seen posted
  At wk0 seen posted (waiting wk h) =
      (wk1 : Worker) × (before : List Event) × Looped wk0 h wk1 seen before
      × (posted ≡ before ++ set_wk_pp none ∷ [])
  At wk0 seen posted (woken wk) =
      (h : ℕ) × (wk1 : Worker) × (before : List Event) × Looped wk0 h wk1 seen before
      × (posted ≡ before ++ set_wk_pp none ∷ [])
  At wk0 seen posted gone = IsSession wk0 seen posted

  failed-IsSession :
      (wk0 : Worker) (seen : List (Header × Bytes))
      → seen ≡ []
      → IsSession wk0 seen (set_wk_life false ∷ set_wk_flag false ∷ [])
  unfolding IsSession set_capture run_handle delivered
  failed-IsSession wk0 seen empty = (
    record { opened = none; compiled = true; filtered = true; packets = [] },
    _,
    ground arith,
    refl,
  )

  Looped-IsSession :
      (wk0 wk : Worker) (h : ℕ) (seen : List (Header × Bytes)) (posted : List Event)
      → Looped wk0 h wk seen posted
      → IsSession wk0 seen (posted ++ set_wk_pp none ∷ set_wk_life false ∷ [])
  unfolding IsSession set_capture run_handle run_open
  Looped-IsSession wk0 wk h seen posted l = (
    answers h seen,
    record wk { pp = none },
    delivered-answers wk0 h seen,
    rw (delivered-answers wk0 h seen, l.run, l.told) refl,
  )

  -- A step that adds no call and handles no packet.
  quiet :
      (s : Shared) (wk0 : Worker) (seen : List (Header × Bytes)) (posted : List Event) (p : Pc)
      → At wk0 seen posted p
      → (ps : List Post) × (s.queue ≡ s.queue ++ ps)
        × At wk0 (seen ++ []) (posted ++ map event_of ps) p
  quiet s wk0 seen posted p c =
      ([], sym (append-nil s.queue), rw (append-nil seen, append-nil posted) c)

  -- A step takes the thread on, with the calls that the step adds.
  Move-At :
      {i : ℕ} {s t : Shared} {p p' : Pc} {packets : List (Header × Bytes)} (wk0 : Worker)
      (seen : List (Header × Bytes)) (posted : List Event)
      → Move e q i s p packets t p'
      → At wk0 seen posted p
      → (ps : List Post) × (t.queue ≡ s.queue ++ ps)
        × At wk0 (seen ++ packets) (posted ++ map event_of ps) p'
  unfolding capture_loop
  Move-At {s} wk0 seen posted open_fails c = quiet s wk0 seen posted (failed _) c
  Move-At wk0 seen posted tell_death (is, empty, none_yet) =
      (_, refl, (append-nil seen ∙ empty, rw none_yet refl))
  Move-At wk0 seen posted tell_flag (empty, told) =
      (_, refl, rw (told, append-nil seen) (failed-IsSession wk0 seen empty))
  Move-At {s} wk0 seen posted (open_live {wk} h unused) (is, empty, none_yet) =
      quiet s wk0 seen posted (opened (record wk { pp = some h }) h) (rw is refl, empty, none_yet)
  Move-At wk0 seen posted tell_handle (is, empty, told) =
      (_, refl, (is, append-nil seen ∙ empty, rw told refl))
  Move-At wk0 seen posted tell_life (is, empty, told) =
      (_, refl, (is, append-nil seen ∙ empty, rw told refl))
  Move-At {s} wk0 seen posted (start_loop {wk} {h}) (is, empty, told) =
      quiet s wk0 seen posted (looping wk h)
        (record { looped = []; run = rw (empty, is) refl; told = told })
  Move-At {s} wk0 seen posted (refuse_filter {wk} {h} some_filter) (is, empty, told) =
      quiet s wk0 seen posted (leaving wk h)
        (record { looped = []; run = rw (empty, is) refl; told = told })
  Move-At wk0 seen posted (packet {posted = ms} header bytes done) c = (
    map queued ms,
    refl,
    record {
      looped = c.looped ++ ms;
      run = capture_loop-snoc _ _ _ seen header bytes c.looped ms c.run done;
      told = rw (map-queued ms, c.told) refl;
    },
  )
  Move-At {s} wk0 seen posted (end_loop {wk} {h}) c = quiet s wk0 seen posted (leaving wk h) c
  Move-At {s} wk0 seen posted (close {wk} {h}) c = quiet s wk0 seen posted (closed wk h) c
  Move-At wk0 seen posted call_back c = (_, refl, rw (append-nil seen) (_, posted, c, refl))
  Move-At {s} wk0 seen posted (wake {wk} {h} free) (wk1, before, l, told) =
      quiet s wk0 seen posted (woken wk) (h, wk1, before, l, told)
  Move-At wk0 seen posted tell_end (h, wk1, before, l, told) = (
    _,
    refl,
    rw (told, append-nil seen, append_assoc before (set_wk_pp none ∷ []) (set_wk_life false ∷ []))
        (Looped-IsSession wk0 wk1 h seen before l),
  )

  Trace-At :
      {i : ℕ} {wk0 : Worker} {seen : List (Header × Bytes)} {posted : List Event} {p : Pc}
      → Trace e q i wk0 seen posted p
      → At wk0 seen posted p
  Trace-At at_start = (refl, refl, refl)
  Trace-At {wk0} (and_then {seen} {posted} {s} ps r mv added) =
      let (ps', adds, c) = Move-At wk0 seen posted mv (Trace-At r) in
      let same : ps' ≡ ps = same_tail s.queue ps' ps (sym adds ∙ added) in rw (← same) c

  -- Each step of the thread continues its trace.
  pub Move-Trace :
      {i : ℕ} {wk0 : Worker} {seen packets : List (Header × Bytes)} {posted : List Event}
      {s t : Shared} {p p' : Pc}
      → Move e q i s p packets t p'
      → Trace e q i wk0 seen posted p
      → (posted' : List Event) × Trace e q i wk0 (seen ++ packets) posted' p'
  Move-Trace {wk0} {seen} {posted} mv r =
      let (ps, adds, c) = Move-At wk0 seen posted mv (Trace-At r) in (_, and_then ps r mv adds)
