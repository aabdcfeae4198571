-- ===== src/Threads/System.antt =====
-- Pcap.cpp, Worker::set_Capture as a thread of its own: where it stands, what it does next, and the
-- steps of the user interface's thread in between. libpcap may open or refuse, deliver packets and
-- end pcap_loop at any time; a packet whose handling faults has no step.
use mini_wireshark.Base.{
  ℕ, ◌+◌, ◌≡◌, Bool, true, false, ◌||◌, List, [], ◌∷◌, ◌++◌, map, Option, none, some, ◌==◌,
  if◌then◌else◌,
}
use mini_wireshark.Qt.{QString, Qt}
use mini_wireshark.Packet.Memory.{Bytes, Endian}
use mini_wireshark.Packet.Rows.{Header}
use mini_wireshark.Worker.Event.{Worker, Event, set_wk_pp, set_wk_life, set_wk_flag}
use mini_wireshark.Worker.Handler.{my_packet_handler}
use mini_wireshark.Worker.Session.{is_empty}
use mini_wireshark.Pcap.State.{Pcap, new_pcap, deliver}
use mini_wireshark.Pcap.Offline.{pcap_file_read}
use mini_wireshark.Pcap.Control.{new_worker, create_th, stop_th, reset_md}

-- A call in the queue of the user interface's thread: Qt::QueuedConnection, or the lambda of
-- Qt::BlockingQueuedConnection, `set_wk_pp(nullptr)`, for which thread i waits.
pub data Post : Type 0 where
  queued : Event → Post
  blocking : ℕ → Post

abbrev pub event_of : Post → Event
event_of (queued m) = m
event_of (blocking i) = set_wk_pp none

-- Thread i waits as long as its call is in the queue.
abbrev pub is_blocked : ℕ → List Post → Bool
is_blocked i [] = false
is_blocked i (queued m ∷ ps) = is_blocked i ps
is_blocked i (blocking j ∷ ps) = j == i || is_blocked i ps

-- What the threads share: the Pcap object, its queue, and which capture handles are open.
pub record Shared : Type 0 where
  pub pcap : Pcap
  pub queue : List Post
  pub is_open : ℕ → Bool

-- Where a capture thread stands in set_Capture, with its worker and its handle.
pub data Pc : Type 0 where
  unborn : Pc
  starting : Worker → Pc  -- before pcap_open_live
  failed : Worker → Pc  -- it returned nullptr
  failed_late : Worker → Pc  -- set_wk_life(false) is posted
  opened : Worker → ℕ → Pc  -- it returned a handle
  announced : Worker → ℕ → Pc  -- set_wk_pp is posted
  filtering : Worker → ℕ → Pc  -- set_wk_life(true) is posted
  looping : Worker → ℕ → Pc  -- in pcap_loop
  leaving : Worker → ℕ → Pc  -- before pcap_close
  closed : Worker → ℕ → Pc  -- before the blocking call
  waiting : Worker → ℕ → Pc  -- in the blocking call
  woken : Worker → Pc  -- before set_wk_life(false)
  gone : Pc

abbrev pub post : Shared → List Post → Shared
post s ps = record s { queue = s.queue ++ ps }

-- Open or close a handle.
abbrev pub set_open : (ℕ → Bool) → ℕ → Bool → ℕ → Bool
set_open f h b k = if h == k then b else f k

abbrev pub reopen : Shared → ℕ → Bool → Shared
reopen s h b = record s { is_open = set_open s.is_open h b }

-- One step of thread i. The list holds the packet that the step handles, if it does.
pub data Move (e : Endian) (q : Qt) (i : ℕ) (s : Shared)
    : Pc → List (Header × Bytes) → Shared → Pc → Type 0 where
  open_fails : {wk : Worker} → Move e q i s (starting wk) [] s (failed wk)
  tell_death :
      {wk : Worker}
      → Move e q i s (failed wk) [] (post s (queued (set_wk_life false) ∷ [])) (failed_late wk)
  tell_flag :
      {wk : Worker}
      → Move e q i s (failed_late wk) [] (post s (queued (set_wk_flag false) ∷ [])) gone
  open_live :
      {wk : Worker} (h : ℕ)
      → s.is_open h ≡ false
      → Move e q i s (starting wk) [] (reopen s h true) (opened (record wk { pp = some h }) h)
  tell_handle :
      {wk : Worker} {h : ℕ}
      → Move e q i s (opened wk h) [] (post s (queued (set_wk_pp (some h)) ∷ [])) (announced wk h)
  tell_life :
      {wk : Worker} {h : ℕ}
      → Move e q i s (announced wk h) [] (post s (queued (set_wk_life true) ∷ [])) (filtering wk h)
  start_loop : {wk : Worker} {h : ℕ} → Move e q i s (filtering wk h) [] s (looping wk h)
  refuse_filter :
      {wk : Worker} {h : ℕ}
      → is_empty wk.bfs_ft ≡ false
      → Move e q i s (filtering wk h) [] s (leaving wk h)
  packet :
      {wk wk' : Worker} {h : ℕ} {posted : List Event} (header : Header) (bytes : Bytes)
      → my_packet_handler e q wk header bytes ≡ some (wk', posted)
      → Move e q i s
          (looping wk h)
          ((header, bytes) ∷ [])
          (post s (map queued posted))
          (looping wk' h)
  end_loop : {wk : Worker} {h : ℕ} → Move e q i s (looping wk h) [] s (leaving wk h)
  close : {wk : Worker} {h : ℕ} → Move e q i s (leaving wk h) [] (reopen s h false) (closed wk h)
  call_back :
      {wk : Worker} {h : ℕ}
      → Move e q i s
          (closed wk h)
          []
          (post s (blocking i ∷ []))
          (waiting (record wk { pp = none }) h)
  wake :
      {wk : Worker} {h : ℕ}
      → is_blocked i s.queue ≡ false
      → Move e q i s (waiting wk h) [] s (woken wk)
  tell_end :
      {wk : Worker} → Move e q i s (woken wk) [] (post s (queued (set_wk_life false) ∷ [])) gone

-- One step of the user interface's thread: the head of the queue, a click, or a file.
pub data Ui (e : Endian) (q : Qt) (s : Shared) : Shared → Type 0 where
  run_call :
      (p : Post) (rest : List Post)
      → s.queue ≡ p ∷ rest
      → Ui e q s (record s { pcap = deliver s.pcap (event_of p); queue = rest })
  stop : Ui e q s (record s { pcap = (stop_th s.pcap).0 })
  reset : Ui e q s (record s { pcap = reset_md s.pcap })
  open_file :
      {t : Pcap} (file : Option (ℕ × List (Header × Bytes)))
      → pcap_file_read e q s.pcap file ≡ some t
      → Ui e q s (record s { pcap = t })

-- All threads: `count` were created.
pub record System : Type 0 where
  pub shared : Shared
  pub pc : ℕ → Pc
  pub count : ℕ

abbrev pub move_to : (ℕ → Pc) → ℕ → Pc → ℕ → Pc
move_to f i p j = if i == j then p else f j

abbrev pub fresh_system : System
fresh_system = record {
  shared = record { pcap = new_pcap; queue = []; is_open = λ h. false };
  pc = λ i. unborn;
  count = 0;
}

-- The system behind create_Th: the threads that run go on.
abbrev pub with_thread : System → QString → QString → System
with_thread s name filter = record s {
  shared = record s.shared { pcap = (create_th s.shared.pcap name filter).0 };
  pc = move_to s.pc s.count (starting (new_worker name filter));
  count = s.count + 1;
}

pub data Step (e : Endian) (q : Qt) (s : System) : System → Type 0 where
  click : {t : Shared} → Ui e q s.shared t → Step e q s (record s { shared = t })
  create : (name filter : QString) → is_empty name ≡ false → Step e q s (with_thread s name filter)
  work :
      (i : ℕ) {t : Shared} {p : Pc} {packets : List (Header × Bytes)}
      → Move e q i s.shared (s.pc i) packets t p
      → Step e q s (record s { shared = t; pc = move_to s.pc i p })

pub data Run (e : Endian) (q : Qt) : System → Type 0 where
  begin : Run e q fresh_system
  later : {s t : System} → Run e q s → Step e q s t → Run e q t
