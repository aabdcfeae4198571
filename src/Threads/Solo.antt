-- ===== src/Threads/Solo.antt =====
-- One capture thread and the user interface's thread, in any interleaving, without a second
-- create_Th: the calls run from the queue, and the user may click on stop at any time.
use mini_wireshark.Base.{ℕ, Option, ◌≡◌, List, [], ◌∷◌, ◌++◌, some, >>=-eq-some}
use mini_wireshark.Qt.{Qt}
use mini_wireshark.Packet.Memory.{Bytes, Endian}
use mini_wireshark.Packet.Rows.{Header, StPkt, DumpData, byte_array, increment}
use mini_wireshark.Packet.Eh
use mini_wireshark.Packet.IpH
use mini_wireshark.Worker.Event.{Worker, Event, update_md, dump_push_back}
use mini_wireshark.Worker.Handler.{my_packet_handler, Verdict, ignored, row, finish, classify}
use mini_wireshark.Worker.Handler as Handler
use mini_wireshark.Pcap.State.{deliver}
use mini_wireshark.Pcap.Control.{stop_th}
use mini_wireshark.Threads.System.{Shared, Pc, starting, Post, event_of, Move}

-- From a state s0 with a worker wk0 that is about to start: the packets handled so far, what is
-- shared, and where the thread stands.
pub data Solo (e : Endian) (q : Qt) (i : ℕ) (s0 : Shared) (wk0 : Worker)
    : List (Header × Bytes) → Shared → Pc → Type 0 where
  begin : Solo e q i s0 wk0 [] s0 (starting wk0)
  work :
      {seen packets : List (Header × Bytes)} {s t : Shared} {p p' : Pc}
      → Solo e q i s0 wk0 seen s p
      → Move e q i s p packets t p'
      → Solo e q i s0 wk0 (seen ++ packets) t p'
  run_call :
      {seen : List (Header × Bytes)} {s : Shared} {p : Pc} (x : Post) (rest : List Post)
      → Solo e q i s0 wk0 seen s p
      → s.queue ≡ x ∷ rest
      → Solo e q i s0 wk0 seen (record s { pcap = deliver s.pcap (event_of x); queue = rest }) p
  stop :
      {seen : List (Header × Bytes)} {s : Shared} {p : Pc}
      → Solo e q i s0 wk0 seen s p
      → Solo e q i s0 wk0 seen (record s { pcap = (stop_th s.pcap).0 }) p

-- What the handler posts: nothing, or a row and a copy.
pub data IsRows : List Event → Type 0 where
  no_row : IsRows []
  one_row : (r : StPkt) (d : DumpData) → IsRows (update_md r ∷ dump_push_back d ∷ [])

same_posts :
    {wk wk' : Worker} {ms posted : List Event}
    → ◌≡◌ {A = Option (Worker × List Event)} (some (wk, ms)) (some (wk', posted))
    → IsRows ms
    → IsRows posted
same_posts {ms} {posted} done rows = let same : ms ≡ posted = cc done in rw (← same) rows

module _ (e : Endian) (q : Qt) where
  finish-IsRows :
      (wk wk' : Worker) (h : Header) (p : Bytes) (v : Verdict) (posted : List Event)
      → finish e q wk h p v ≡ some (wk', posted)
      → IsRows posted
  unfolding finish Handler.post
  finish-IsRows wk wk' h p ignored posted done = same_posts done no_row
  finish-IsRows wk wk' h p (row proto info) posted done =
      let (saddr, e1, k1) = >>=-eq-some (IpH.saddr p Eh.size) _ done in
      let (daddr, e2, k2) = >>=-eq-some (IpH.daddr p Eh.size) _ k1 in
      let (num, e3, k3) = >>=-eq-some (increment wk.num) _ k2 in
      let (tot_len, e4, k4) = >>=-eq-some (IpH.tot_len e p Eh.size) _ k3 in
      let (content, e5, k5) = >>=-eq-some (byte_array p h.len) _ k4 in same_posts k5 (one_row _ _)

  pub my_packet_handler-IsRows :
      (wk wk' : Worker) (h : Header) (p : Bytes) (posted : List Event)
      → my_packet_handler e q wk h p ≡ some (wk', posted)
      → IsRows posted
  unfolding my_packet_handler
  my_packet_handler-IsRows wk wk' h p posted done =
      let (v, is, fin) = >>=-eq-some (classify e q h p) (finish e q wk h p) done in
      finish-IsRows wk wk' h p v posted fin
