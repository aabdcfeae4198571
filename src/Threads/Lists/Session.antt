-- ===== src/Threads/Lists/Session.antt =====
-- A session to its end: the list that it leaves.
use mini_wireshark.Base.{ℕ, ◌≡◌, refl, arith, ◌∙◌, false, List, [], ◌∷◌, map, none, some}
use mini_wireshark.Qt.{Qt}
use mini_wireshark.Packet.Memory.{Bytes, Endian}
use mini_wireshark.Packet.Rows.{Header}
use mini_wireshark.Worker.Event.{Worker, Event}
use mini_wireshark.Pcap.State
use mini_wireshark.Pcap.State.{Pcap, deliver, deliver_all}
use mini_wireshark.Pcap.Offline.{read_loop}
use mini_wireshark.Pcap.Sessions.{SameList, deliver_all-SameList}
use mini_wireshark.Pcap.Control.{stop_th, stop_handle}
use mini_wireshark.Threads.Handles.Calls.{stopped}
use mini_wireshark.Threads.Handles.Stop.{IsIdle, Solo-Tracks}
use mini_wireshark.Threads.Solo.{Solo, begin, work, run_call, stop}
use mini_wireshark.Threads.System.{Post, event_of, Shared, Pc, gone}
use mini_wireshark.Threads.Lists.{settled, InStep, Move-InStep, SameList-trans}

deliver-wk_life :
    (s t : Pcap) (m : Event) → s.wk_life ≡ t.wk_life → (deliver s m).wk_life ≡ (deliver t m).wk_life
unfolding deliver State.set_wk_life State.set_wk_pp State.set_wk_flag State.update_md
    State.dump_push_back
deliver-wk_life s t (Event.set_wk_life b) h = refl
deliver-wk_life s t m h = h

deliver_all-wk_life :
    (s t : Pcap) (ms : List Event)
    → s.wk_life ≡ t.wk_life
    → (deliver_all s ms).wk_life ≡ (deliver_all t ms).wk_life
unfolding deliver_all
deliver_all-wk_life s t [] h = h
deliver_all-wk_life s t (m ∷ ms) h =
    deliver_all-wk_life (deliver s m) (deliver t m) ms (deliver-wk_life s t m h)

stop_th-SameList : (p : Pcap) → SameList (stop_th p).0 p × ((stop_th p).0.wk_life ≡ p.wk_life)
unfolding stop_th stop_handle State.set_stop_flag State.set_wk_flag
stop_th-SameList p = ground arith

settled-ran :
    (s : Shared) (x : Post) (rest : List Post)
    → s.queue ≡ x ∷ rest
    → settled (record s { pcap = deliver s.pcap (event_of x); queue = rest }) ≡ settled s
unfolding deliver_all
settled-ran s x rest head = rw head refl

settled-stopped :
    (s : Shared)
    → SameList (settled (stopped s)) (settled s)
      × ((settled (stopped s)).wk_life ≡ (settled s).wk_life)
settled-stopped s =
    let (list, life) = stop_th-SameList s.pcap in
    (
      deliver_all-SameList (stop_th s.pcap).0 s.pcap (map event_of s.queue) list,
      deliver_all-wk_life (stop_th s.pcap).0 s.pcap (map event_of s.queue) life,
    )

module _ (e : Endian) (q : Qt) (i : ℕ) (s0 : Shared) (wk0 : Worker) (idle : IsIdle s0)
    (start : wk0.num ≡ s0.pcap.num) where
  Solo-InStep :
      {seen : List (Header × Bytes)} {s : Shared} {p : Pc}
      → Solo e q i s0 wk0 seen s p
      → InStep e q s0.pcap seen s p
  unfolding read_loop deliver_all
  Solo-InStep begin = record {
    read = s0.pcap;
    is_read = refl;
    same = rw idle.no_calls (refl, refl);
    counted = start;
    told = λ o. cc;
  }
  Solo-InStep (work r mv) = Move-InStep e q i s0.pcap mv (Solo-InStep r)
  Solo-InStep (run_call {s} x rest r head) =
      let c = Solo-InStep r in
      record {
        read = c.read;
        is_read = c.is_read;
        same = rw (settled-ran s x rest head) c.same;
        counted = c.counted;
        told = λ o. rw (settled-ran s x rest head) (c.told o);
      }
  Solo-InStep (stop {s} {p} r) =
      let c = Solo-InStep r in
      let (list, life) = settled-stopped s in
      record {
        read = c.read;
        is_read = c.is_read;
        same = SameList-trans (settled (stopped s)) (settled s) c.read list c.same;
        counted = c.counted;
        told = λ o. life ∙ c.told o;
      }

  -- A session that one thread ends, in any interleaving with the calls from its queue and with stop
  -- clicks, from an idle state and with equal counters: when the queue is empty, the list and the
  -- stored packets are those of reading the packets that pcap_loop delivered, the thread counts as
  -- gone, and no handle is kept.
  pub Solo-read_loop :
      {seen : List (Header × Bytes)} {s : Shared}
      → Solo e q i s0 wk0 seen s gone
      → s.queue ≡ []
      → (t : Pcap) × (read_loop e q s0.pcap seen ≡ some t)
        × SameList s.pcap t
        × (s.pcap.wk_life ≡ false)
        × (s.pcap.wk_pp ≡ none)
  unfolding deliver_all
  Solo-read_loop {s} r empty =
      let c = Solo-InStep r in
      let done : settled s ≡ s.pcap = rw empty refl in
      let same : SameList s.pcap c.read = rw done at c.same in
      let told : s.pcap.wk_life ≡ false = rw done at (c.told refl) in
      (c.read, c.is_read, same, told, (Solo-Tracks e q i s0 wk0 idle r).1)
