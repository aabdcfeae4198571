-- ===== src/Pcap/Captures.antt =====
-- What a capture session shows in the end: Worker::set_Capture and the messages that it queues,
-- against the wire format of the packets.
use mini_wireshark.Base.{
  ℕ, ◌+◌, ◌≤◌, ◌≡◌, refl, ◌∙◌, sym, ap, true, false, List, [], ◌∷◌, ◌++◌, none, some, length,
  >>=-eq-some,
}
use mini_wireshark.Qt.{Qt}
use mini_wireshark.Packet.Memory.{Bytes, Endian}
use mini_wireshark.Packet.Rows.{Header, int_max}
use mini_wireshark.Worker.Event.{Worker, Event, set_wk_pp, set_wk_life}
use mini_wireshark.Worker.Handler.{capture_loop}
use mini_wireshark.Worker.Session.{Answers, delivered, run_open, run_handle, set_capture}
use mini_wireshark.Pcap.State.{Pcap, deliver_all}
use mini_wireshark.Pcap.Offline.{read_loop}
use mini_wireshark.Pcap.Live.{read_loop-absorb}
use mini_wireshark.Pcap.Shows.{AllSound, Adds, wire_rows, wire_dumps, read_loop-wire_rows}
use mini_wireshark.Pcap.Sessions.{set_capture-read_loop}

some-injective : {A : Type 0} {x y : A} → some x ≡ some y → x ≡ y
some-injective h = cc h

module _ (e : Endian) (q : Qt) where
  -- The loop of a capture ends where reading the same packets does.
  capture_loop-some :
      (s t : Pcap) (wk : Worker) (ps : List (Header × Bytes))
      → s.num ≡ wk.num
      → read_loop e q s ps ≡ some t
      → (r : Worker × List Event) × (capture_loop e q wk ps ≡ some r)
  capture_loop-some s t wk ps start read =
      let same : capture_loop e q (record wk { num = s.num }) ps ≡ capture_loop e q wk ps =
        rw start refl in
      let (r, is, _) =
        >>=-eq-some (capture_loop e q (record wk { num = s.num }) ps) _
          (sym (read_loop-absorb e q ps s wk) ∙ read) in
      (r, sym same ∙ is)

  set_capture-some :
      (wk : Worker) (a : Answers) (handle : ℕ) (r : Worker × List Event)
      → a.opened ≡ some handle
      → capture_loop e q (record wk { pp = some handle }) (delivered wk.bfs_ft a) ≡ some r
      → (wk' : Worker) × (posted : List Event) × (set_capture e q wk a ≡ some (wk', posted))
  unfolding set_capture run_handle run_open capture_loop delivered
  set_capture-some wk a handle r opened loop = (
    record r.0 { pp = none },
    set_wk_pp (some handle) ∷ set_wk_life true ∷ (r.1 ++ set_wk_pp none ∷ set_wk_life false ∷ []),
    rw (opened, loop) refl,
  )

  -- A session on an interface that opens, with equal counters, of packets that the filter lets
  -- through, all sound and few enough for the counters: the thread ends with no read outside of a
  -- buffer; when its messages have been delivered, the list has got the row of every supported
  -- packet in order of capture, the stored packets their copies, the worker counts as gone and no
  -- handle is kept.
  pub set_capture-wire_rows :
      (s : Pcap) (wk : Worker) (a : Answers) (handle : ℕ)
      → a.opened ≡ some handle
      → s.num ≡ wk.num
      → AllSound (delivered wk.bfs_ft a)
      → s.num + length (delivered wk.bfs_ft a) ≤ int_max
      → (wk' : Worker) × (posted : List Event) × (set_capture e q wk a ≡ some (wk', posted))
        × Adds s
            (deliver_all s posted)
            (wire_rows q s.num (delivered wk.bfs_ft a))
            (wire_dumps q s.num (delivered wk.bfs_ft a))
        × ((deliver_all s posted).wk_life ≡ false)
        × ((deliver_all s posted).wk_pp ≡ none)
  set_capture-wire_rows s wk a handle opened start sound room =
      let (t, read, added) = read_loop-wire_rows e q (delivered wk.bfs_ft a) s sound room in
      let (r, loop) =
        capture_loop-some s t (record wk { pp = some handle }) (delivered wk.bfs_ft a) start read in
      let (wk', posted, run) = set_capture-some wk a handle r opened loop in
      let (t', read', same, dead, closed) =
        set_capture-read_loop e q s wk wk' a handle posted opened start run in
      let one : t' ≡ t = some-injective (sym read' ∙ read) in
      let shown : Adds s (deliver_all s posted) (wire_rows q s.num (delivered wk.bfs_ft a))
          (wire_dumps q s.num (delivered wk.bfs_ft a)) =
        (
          ap (λ m. m.vec) same.0 ∙ ap (λ u. u.md.vec) one ∙ added.0,
          same.1 ∙ ap (λ u. u.vec_dump) one ∙ added.1,
        ) in
      (wk', posted, run, shown, dead, closed)
