-- ===== src/Threads/Chain.antt =====
-- Captures one after the other: each is started by Pcap::create_Th when the thread of the one before
-- is gone and its calls have run.
use mini_wireshark.Base.{ℕ, ◌≡◌, refl, ◌∙◌, ap, ◌⊎◌, true, false, List, [], ◌∷◌, some, none, arith}
use mini_wireshark.Qt.{QString, Qt}
use mini_wireshark.Packet.Memory.{Bytes, Endian}
use mini_wireshark.Packet.Rows.{Header}
use mini_wireshark.Worker.Event.{Worker, Event}
use mini_wireshark.Pcap.State
use mini_wireshark.Pcap.State.{Pcap, new_pcap, deliver}
use mini_wireshark.Pcap.Offline.{read_loop}
use mini_wireshark.Pcap.Sessions.{SameList}
use mini_wireshark.Pcap.Control.{create_th, new_worker, stop_th, stop_handle}
use mini_wireshark.Threads.System.{Shared, Pc, gone, event_of}
use mini_wireshark.Threads.Solo.{Solo, begin, work, run_call, stop}
use mini_wireshark.Threads.Handles.Stop.{IsIdle, IsClosing, Solo-Tracks, stop_th-open}
use mini_wireshark.Threads.Lists.Session.{Solo-read_loop}
use mini_wireshark.Threads.Refines.{Move-pcap}

abbrev pub fresh_shared : Shared
fresh_shared = record { pcap = new_pcap; queue = []; is_open = λ h. false }

-- create_Th has run, and its thread is about to start.
abbrev pub created : Shared → QString → QString → Shared
created s name filter = record s { pcap = (create_th s.pcap name filter).0 }

-- What is shared between two captures.
pub data Between (e : Endian) (q : Qt) : Shared → Type 0 where
  first : Between e q fresh_shared
  next :
      {s t : Shared} {seen : List (Header × Bytes)} (i c : ℕ) (name filter : QString)
      → Between e q s
      → Solo e q i (created s (c ∷ name) filter) (new_worker (c ∷ name) filter) seen t gone
      → t.queue ≡ []
      → Between e q t

deliver-num : (s : Pcap) (m : Event) → (deliver s m).num ≡ s.num
unfolding deliver State.set_wk_pp State.set_wk_life State.set_wk_flag State.update_md
    State.dump_push_back
deliver-num s (Event.update_md r) = refl
deliver-num s (Event.dump_push_back d) = refl
deliver-num s (Event.set_wk_pp h) = refl
deliver-num s (Event.set_wk_life b) = refl
deliver-num s (Event.set_wk_flag b) = refl

stop_th-num : (s : Pcap) → (stop_th s).0.num ≡ s.num
unfolding stop_th stop_handle State.set_stop_flag State.set_wk_flag
stop_th-num s = ground arith

create_th-keeps :
    (s : Pcap) (c : ℕ) (name filter : QString)
    → ((create_th s (c ∷ name) filter).0.num ≡ s.num)
      × ((create_th s (c ∷ name) filter).0.wk_pp ≡ s.wk_pp)
unfolding create_th State.set_stop_flag State.set_wk_flag
create_th-keeps s c name filter = (refl, refl)

module _ (e : Endian) (q : Qt) where
  Solo-num :
      {i : ℕ} {s0 : Shared} {wk0 : Worker} {s : Shared} {seen : List (Header × Bytes)} {p : Pc}
      → Solo e q i s0 wk0 seen s p
      → s.pcap.num ≡ s0.pcap.num
  Solo-num begin = refl
  Solo-num (work r mv) = ap (λ o. o.num) (Move-pcap e q mv) ∙ Solo-num r
  Solo-num (run_call {s} x rest r head) = deliver-num s.pcap (event_of x) ∙ Solo-num r
  Solo-num (stop {s} r) = stop_th-num s.pcap ∙ Solo-num r

  created-IsIdle :
      (s : Shared) (c : ℕ) (name filter : QString)
      → IsIdle s × (s.pcap.num ≡ 0)
      → IsIdle (created s (c ∷ name) filter)
        × ((new_worker (c ∷ name) filter).num ≡ (created s (c ∷ name) filter).pcap.num)
  unfolding new_worker
  created-IsIdle s c name filter (idle, num) =
      let (same_num, same_handle) = create_th-keeps s.pcap c name filter in
      (
        record { no_calls = idle.no_calls; no_handle = same_handle ∙ idle.no_handle },
        rw (same_num, num) refl,
      )

  Between-IsIdle : {s : Shared} → Between e q s → IsIdle s × (s.pcap.num ≡ 0)
  unfolding new_pcap
  Between-IsIdle first = (record { no_calls = refl; no_handle = refl }, refl)
  Between-IsIdle (next {s} {t} i c name filter b r empty) =
      let (idle, num) = Between-IsIdle b in
      let (idle', start) = created-IsIdle s c name filter (idle, num) in
      (
        record { no_calls = empty; no_handle = (Solo-Tracks e q i _ _ idle' r).1 },
        Solo-num r ∙ (create_th-keeps s.pcap c name filter).0 ∙ num,
      )

  module _ {s : Shared} (between : Between e q s) (i c : ℕ) (name filter : QString) where
    -- Captures one after the other, from a new object on, each with one thread, in any interleaving
    -- with its calls and with stop clicks: the handle that the stop button passes to pcap_breakloop
    -- is open, unless the thread stands between its pcap_close and the end of its blocking call.
    pub stop_th-chain :
        {seen : List (Header × Bytes)} {t : Shared} {p : Pc} {h : ℕ}
        → Solo e q i (created s (c ∷ name) filter) (new_worker (c ∷ name) filter) seen t p
        → (stop_th t.pcap).1 ≡ some h
        → (t.is_open h ≡ true) ⊎ IsClosing p
    stop_th-chain r used =
        let (idle, start) = created-IsIdle s c name filter (Between-IsIdle between) in
        stop_th-open e q i _ _ idle r used

    -- Captures one after the other, from a new object on, each with one thread, in any interleaving
    -- with its calls and with stop clicks: when a thread is gone and the queue is empty, the list
    -- and the stored packets are those of reading the packets that its pcap_loop delivered, the
    -- thread counts as gone, and no handle is kept.
    pub read_loop-chain :
        {seen : List (Header × Bytes)} {t : Shared}
        → Solo e q i (created s (c ∷ name) filter) (new_worker (c ∷ name) filter) seen t gone
        → t.queue ≡ []
        → (read : Pcap) × (read_loop e q (create_th s.pcap (c ∷ name) filter).0 seen ≡ some read)
          × SameList t.pcap read
          × (t.pcap.wk_life ≡ false)
          × (t.pcap.wk_pp ≡ none)
    read_loop-chain r empty =
        let (idle, start) = created-IsIdle s c name filter (Between-IsIdle between) in
        Solo-read_loop e q i _ _ idle start r empty
