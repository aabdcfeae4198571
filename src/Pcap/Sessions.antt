-- ===== src/Pcap/Sessions.antt =====
-- A whole session of the capture thread, seen by the object: what its messages leave behind.
use mini_wireshark.Base.{
  ◌&&◌, ℕ, ◌≡◌, refl, ◌∙◌, true, false, List, [], ◌∷◌, ◌++◌, Option, none, some, arith, >>=-eq-some,
}
use mini_wireshark.Qt.{Qt}
use mini_wireshark.Packet.Memory.{Bytes, Endian}
use mini_wireshark.Packet.Rows.{Header}
use mini_wireshark.Worker.Event.{Worker, Event, Handle, set_wk_pp, set_wk_life}
use mini_wireshark.Worker.Handler.{capture_loop}
use mini_wireshark.Worker.Session.{is_empty, Answers, delivered, run_open, run_handle, set_capture}
use mini_wireshark.Pcap.State.{Pcap, deliver, deliver_all}
use mini_wireshark.Pcap.Offline.{read_loop}
use mini_wireshark.Pcap.Control.{stop_th, stop_handle}
use mini_wireshark.Pcap.Live.{read_loop-absorb, deliver_all-append}

-- The rows and the stored packets of two states agree.
abbrev pub SameList : Pcap → Pcap → Type 0
SameList s t = (s.md ≡ t.md) × (s.vec_dump ≡ t.vec_dump)

deliver-SameList : (s t : Pcap) (m : Event) → SameList s t → SameList (deliver s m) (deliver t m)
unfolding deliver
deliver-SameList s t (Event.update_md pkt) same = ground arith
deliver-SameList s t (Event.dump_push_back d) same = ground arith
deliver-SameList s t m same = same

-- What the list becomes depends on the list and the messages alone.
pub deliver_all-SameList :
    (s t : Pcap) (ms : List Event) → SameList s t → SameList (deliver_all s ms) (deliver_all t ms)
unfolding deliver_all
deliver_all-SameList s t [] same = same
deliver_all-SameList s t (m ∷ ms) same =
    deliver_all-SameList (deliver s m) (deliver t m) ms (deliver-SameList s t m same)

abbrev opening : ℕ → List Event
opening handle = set_wk_pp (some handle) ∷ set_wk_life true ∷ []

abbrev closing : List Event
closing = set_wk_pp none ∷ set_wk_life false ∷ []

-- The state after the messages of an open session, part by part.
session_messages :
    (s : Pcap) (handle : ℕ) (posted : List Event)
    → deliver_all s (opening handle ++ (posted ++ closing))
      ≡ deliver_all (deliver_all (deliver_all s (opening handle)) posted) closing
session_messages s handle posted =
    deliver_all-append s (opening handle) (posted ++ closing)
    ∙ deliver_all-append (deliver_all s (opening handle)) posted closing

session_end :
    (s t : Pcap) (handle : ℕ) (posted : List Event)
    → SameList (deliver_all s posted) t
    → SameList (deliver_all s (opening handle ++ (posted ++ closing))) t
      × ((deliver_all s (opening handle ++ (posted ++ closing))).wk_life ≡ false)
      × ((deliver_all s (opening handle ++ (posted ++ closing))).wk_pp ≡ none)
unfolding deliver_all deliver
session_end s t handle posted same =
    let inner = deliver_all-SameList (deliver_all s (opening handle)) s posted (refl, refl) in
    rw (session_messages s handle posted) ((inner.0 ∙ same.0, inner.1 ∙ same.1), refl, refl)

opened_run :
    (e : Endian) (q : Qt) (wk : Worker) (a : Answers) (h : Handle) (handle : ℕ)
    {r : Option (Worker × List Event)}
    → h ≡ some handle
    → run_handle e q wk h a ≡ r
    → run_open e q wk handle a ≡ r
unfolding run_handle
opened_run e q wk a none handle opened run = cc
opened_run e q wk a (some h) handle opened run =
    let same : h ≡ handle = cc opened in rw (← same) run

module _ (e : Endian) (q : Qt) where
  loop_read :
      (s : Pcap) (w wk1 : Worker) (packets : List (Header × Bytes)) (looped : List Event)
      → s.num ≡ w.num
      → capture_loop e q w packets ≡ some (wk1, looped)
      → read_loop e q s packets ≡ some (record (deliver_all s looped) { num = wk1.num })
  loop_read s w wk1 packets looped start is =
      let run : capture_loop e q (record w { num = s.num }) packets ≡ some (wk1, looped) =
        rw start is in
      rw (read_loop-absorb e q packets s w, run)

  -- A session that ends without a fault, on an interface that opens and with equal counters: when
  -- its messages have been delivered, the worker counts as gone, no handle is kept, and the list
  -- and the stored packets are those of reading the packets that the filter let through.
  pub set_capture-read_loop :
      (s : Pcap) (wk wk' : Worker) (a : Answers) (handle : ℕ) (posted : List Event)
      → a.opened ≡ some handle
      → s.num ≡ wk.num
      → set_capture e q wk a ≡ some (wk', posted)
      → (t : Pcap) × (read_loop e q s (delivered wk.bfs_ft a) ≡ some t)
        × SameList (deliver_all s posted) t
        × ((deliver_all s posted).wk_life ≡ false)
        × ((deliver_all s posted).wk_pp ≡ none)
  unfolding set_capture run_handle run_open
  set_capture-read_loop s wk wk' a handle posted opened start run =
      let open_run : run_open e q wk handle a ≡ some (wk', posted) =
        opened_run e q wk a a.opened handle opened run in
      let ((wk1, looped), is, last) =
        >>=-eq-some (capture_loop e q (record wk { pp = some handle }) (delivered wk.bfs_ft a)) _
          open_run in
      let t : Pcap = record (deliver_all s looped) { num = wk1.num } in
      let messages : opening handle ++ (looped ++ closing) ≡ posted = cc last in
      let read : read_loop e q s (delivered wk.bfs_ft a) ≡ some t =
        loop_read s (record wk { pp = some handle }) wk1 (delivered wk.bfs_ft a) looped start is in
      let (same, dead, closed) =
        (let ended = session_end s t handle looped (refl, refl) in rw messages at ended) in
      (t, read, same, dead, closed)

  -- A session whose filter libpcap refuses, on an interface that opens: the thread ends with no
  -- packet, and its messages leave the running flag and the stop flag as they were; the stop button
  -- then finds no handle and changes nothing.
  pub set_capture_refused :
      (s : Pcap) (wk : Worker) (a : Answers) (handle : ℕ)
      → a.opened ≡ some handle
      → is_empty wk.bfs_ft ≡ false
      → (a.compiled && a.filtered) ≡ false
      → (set_capture e q wk a ≡ some (record wk { pp = none }, opening handle ++ closing))
        × ((deliver_all s (opening handle ++ closing)).wk_flag ≡ s.wk_flag)
        × ((deliver_all s (opening handle ++ closing)).stop_flag ≡ s.stop_flag)
        × (stop_th (deliver_all s (opening handle ++ closing))
            ≡ (deliver_all s (opening handle ++ closing), none))
  unfolding set_capture run_handle run_open capture_loop delivered deliver_all deliver stop_th
      stop_handle
  set_capture_refused s wk a handle opened filter refused = (ground arith, refl, refl, refl)
