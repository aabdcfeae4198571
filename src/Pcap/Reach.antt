-- ===== src/Pcap/Reach.antt =====
-- The states that clicks, opened files and the messages of capture threads lead to, in any order.
use mini_wireshark.Base.{
  ℕ, ◌≡◌, refl, true, false, ◌&&◌, List, [], ◌∷◌, ◌++◌, Option, none, some, arith, ◌>>=◌,
  >>=-eq-some,
}
use mini_wireshark.Qt.{Qt, QString}
use mini_wireshark.Packet.Memory.{Bytes, Endian}
use mini_wireshark.Packet.Eh
use mini_wireshark.Packet.IpH
use mini_wireshark.Packet.Rows.{Header, byte_array, increment}
use mini_wireshark.Worker.Event.{Worker, Event, Handle}
use mini_wireshark.Worker.Handler.{
  Verdict, ignored, row, my_packet_handler, capture_loop, classify, finish, post,
}
use mini_wireshark.Worker.Session.{Answers, run_open, run_handle, set_capture, delivered}
use mini_wireshark.Pcap.State
use mini_wireshark.Pcap.State.{Pcap, new_pcap, deliver}
use mini_wireshark.Pcap.Offline
use mini_wireshark.Pcap.Offline.{packet_func, read_loop, pcap_file_read}
use mini_wireshark.Pcap.Control.{create_th, stop_handle, stop_th, reset_md}

-- A message that a capture thread posts: it never claims that a capture runs.
abbrev pub IsPosted : Event → Type 0
IsPosted (Event.set_wk_flag set) = set ≡ false
IsPosted m = Unit

abbrev pub AllPosted : List Event → Type 0
AllPosted [] = Unit
AllPosted (m ∷ ms) = IsPosted m × AllPosted ms

AllPosted-append : (ms ns : List Event) → AllPosted ms → AllPosted ns → AllPosted (ms ++ ns)
AllPosted-append [] ns h k = k
AllPosted-append (m ∷ ms) ns h k = (h.0, AllPosted-append ms ns h.1 k)

-- A result whose messages are such; a fault has none.
abbrev pub Posts : Option (Worker × List Event) → Type 0
Posts none = Unit
Posts (some (wk, ms)) = AllPosted ms

Posts-bind :
    {A : Type 0} (m : Option A) (f : A → Option (Worker × List Event))
    → ((a : A) → Posts (f a))
    → Posts (m >>= f)
Posts-bind none f h = tt
Posts-bind (some a) f h = h a

module _ (e : Endian) (q : Qt) where
  post-Posts :
      (wk : Worker) (h : Header) (p : Bytes) (proto info : QString)
      → Posts (post e q wk h p proto info)
  unfolding post
  post-Posts wk h p proto info = Posts-bind (IpH.saddr p Eh.size) _ λ saddr.
      Posts-bind (IpH.daddr p Eh.size) _ λ daddr. Posts-bind (increment wk.num) _ λ num.
        Posts-bind (IpH.tot_len e p Eh.size) _
          λ tot_len. Posts-bind (byte_array p h.len) _ λ content. (tt, (tt, tt))

  finish-Posts : (wk : Worker) (h : Header) (p : Bytes) (v : Verdict) → Posts (finish e q wk h p v)
  unfolding finish
  finish-Posts wk h p ignored = tt
  finish-Posts wk h p (row proto info) = post-Posts wk h p proto info

  handler-Posts : (wk : Worker) (h : Header) (p : Bytes) → Posts (my_packet_handler e q wk h p)
  unfolding my_packet_handler
  handler-Posts wk h p = Posts-bind (classify e q h p) _ (finish-Posts wk h p)

  Posts-then :
      (first : List Event) (r : Option (Worker × List Event))
      → AllPosted first
      → Posts r
      → Posts (r >>= λ (wk, later). some (wk, first ++ later))
  Posts-then first none h k = tt
  Posts-then first (some (wk, later)) h k = AllPosted-append first later h k

  Posts-loop :
      (r : Option (Worker × List Event)) (next : Worker → Option (Worker × List Event))
      → Posts r
      → ((wk : Worker) → Posts (next wk))
      → Posts (r >>= λ (wk, ms). (next wk >>= λ (wk', later). some (wk', ms ++ later)))
  Posts-loop none next h k = tt
  Posts-loop (some (wk, ms)) next h k = Posts-then ms (next wk) h (k wk)

  capture_loop-Posts : (ps : List (Header × Bytes)) (wk : Worker) → Posts (capture_loop e q wk ps)
  unfolding capture_loop
  capture_loop-Posts [] wk = tt
  capture_loop-Posts ((h, p) ∷ rest) wk =
      Posts-loop (my_packet_handler e q wk h p) (λ wk'. capture_loop e q wk' rest)
        (handler-Posts wk h p) (capture_loop-Posts rest)

  open_session :
      (handle : ℕ) (r : Option (Worker × List Event))
      → Posts r
      → Posts (
          r >>= λ (wk, ms). some (
            record wk { pp = none },
            Event.set_wk_pp (some handle)
                ∷ Event.set_wk_life true
                ∷ (ms ++ Event.set_wk_pp none ∷ Event.set_wk_life false ∷ []),
          ))
  open_session handle none h = tt
  open_session handle (some (wk, ms)) h = (tt, (tt, AllPosted-append ms _ h (tt, (tt, tt))))

  run_handle-Posts : (wk : Worker) (h : Handle) (a : Answers) → Posts (run_handle e q wk h a)
  unfolding run_handle run_open
  run_handle-Posts wk none a = (tt, (refl, tt))
  run_handle-Posts wk (some handle) a =
      open_session handle
        (capture_loop e q (record wk { pp = some handle }) (delivered wk.bfs_ft a))
        (capture_loop-Posts (delivered wk.bfs_ft a) (record wk { pp = some handle }))

  -- No session of a capture thread posts a message that says that a capture runs.
  pub set_capture-Posts : (wk : Worker) (a : Answers) → Posts (set_capture e q wk a)
  unfolding set_capture
  set_capture-Posts wk a = run_handle-Posts wk a.opened a

-- A step of the object.
pub data Step (e : Endian) (q : Qt) : Pcap → Pcap → Type 0 where
  create : (s : Pcap) (name filter : QString) → Step e q s (create_th s name filter).0
  stop : (s : Pcap) → Step e q s (stop_th s).0
  reset : (s : Pcap) → Step e q s (reset_md s)
  message : (s : Pcap) (m : Event) → IsPosted m → Step e q s (deliver s m)
  open_file :
      (s t : Pcap) (file : Option (ℕ × List (Header × Bytes)))
      → pcap_file_read e q s file ≡ some t
      → Step e q s t

pub data Reach (e : Endian) (q : Qt) : Pcap → Type 0 where
  start : Reach e q new_pcap
  next : {s t : Pcap} → Reach e q s → Step e q s t → Reach e q t

-- A capture is not shown as running and stopped at once; and the second store of packets, which
-- the searches prefer, stays empty.
pub record IsConsistent (s : Pcap) : Type 0 where
  pub one_flag : (s.stop_flag && s.wk_flag) ≡ false
  pub no_file : s.vec_dump_file ≡ []

-- What the two parts of the invariant read.
abbrev SameFlags : Pcap → Pcap → Type 0
SameFlags s t =
    (t.stop_flag ≡ s.stop_flag) × (t.wk_flag ≡ s.wk_flag) × (t.vec_dump_file ≡ s.vec_dump_file)

module _ (e : Endian) (q : Qt) where
  packet_func-SameFlags :
      (s t : Pcap) (h : Header) (p : Bytes) → packet_func e q s h p ≡ some t → SameFlags s t
  unfolding packet_func Offline.finish Offline.store State.update_md State.dump_push_back
  packet_func-SameFlags s t h p done = (ground arith, ground arith, ground arith)

  read_loop-SameFlags :
      (ps : List (Header × Bytes)) (s t : Pcap) → read_loop e q s ps ≡ some t → SameFlags s t
  unfolding read_loop
  read_loop-SameFlags [] s t done = ground arith
  read_loop-SameFlags ((h, p) ∷ rest) s t done =
      let (s', step, later) =
        >>=-eq-some (packet_func e q s h p) (λ s'. read_loop e q s' rest) done in
      ground (arith, packet_func-SameFlags s s' h p step, read_loop-SameFlags rest s' t later)

  pcap_file_read-SameFlags :
      (s t : Pcap) (file : Option (ℕ × List (Header × Bytes)))
      → pcap_file_read e q s file ≡ some t
      → SameFlags s t
  unfolding pcap_file_read
  pcap_file_read-SameFlags s t none done = ground arith
  pcap_file_read-SameFlags s t (some (handle, packets)) done =
      let (s', read, last) =
        >>=-eq-some (read_loop e q (record s { p_pcap = some handle }) packets) _ done in
      ground (arith, read_loop-SameFlags packets (record s { p_pcap = some handle }) s' read)

  Step-IsConsistent : {s t : Pcap} → Step e q s t → IsConsistent s → IsConsistent t
  unfolding create_th stop_th stop_handle reset_md deliver
  Step-IsConsistent (create s [] filter) c = c
  Step-IsConsistent (create s (x ∷ name) filter) c = ground arith
  Step-IsConsistent (stop s) c = ground arith
  Step-IsConsistent (reset s) c = ground arith
  Step-IsConsistent (message s (Event.update_md pkt) posted) c = ground arith
  Step-IsConsistent (message s (Event.dump_push_back d) posted) c = ground arith
  Step-IsConsistent (message s (Event.set_wk_pp set) posted) c = ground arith
  Step-IsConsistent (message s (Event.set_wk_life set) posted) c = ground arith
  Step-IsConsistent (message s (Event.set_wk_flag set) posted) c = ground arith
  Step-IsConsistent (open_file s t file read) c =
      ground (arith, pcap_file_read-SameFlags s t file read)

  -- In every state that clicks, messages and files lead to, in any order: the stop flag and the flag
  -- of a running capture are not both set, and vec_dump_file is empty.
  pub Reach-IsConsistent : {s : Pcap} → Reach e q s → IsConsistent s
  unfolding new_pcap
  Reach-IsConsistent start = ground arith
  Reach-IsConsistent (next r st) = Step-IsConsistent st (Reach-IsConsistent r)
