-- ===== src/Worker/Session.antt =====
-- Pcap.cpp, Worker::set_Capture: the life of a capture thread. What libpcap answers is an argument:
-- the handle of pcap_open_live, whether pcap_compile and pcap_setfilter succeed, and the packets
-- that pcap_loop hands to the handler before it ends.
use mini_wireshark.Base.{
  ℕ, Bool, true, false, ◌&&◌, List, [], ◌∷◌, ◌++◌, Option, none, some, if◌then◌else◌, ◌>>=◌,
}
use mini_wireshark.Qt.{QString, Qt}
use mini_wireshark.Packet.Memory.{Bytes, Endian}
use mini_wireshark.Packet.Rows.{Header}
use mini_wireshark.Worker.Event.{Handle, Worker, Event, set_wk_pp, set_wk_life, set_wk_flag}
use mini_wireshark.Worker.Handler.{capture_loop}

pub record Answers : Type 0 where
  pub opened : Handle
  pub compiled : Bool
  pub filtered : Bool
  pub packets : List (Header × Bytes)

abbrev pub is_empty : QString → Bool
is_empty [] = true
is_empty (c ∷ s) = false

-- The packets that reach the handler: none if the filter is refused.
unfoldable pub delivered : QString → Answers → List (Header × Bytes)
delivered filter a =
    if is_empty filter then a.packets else if a.compiled && a.filtered then a.packets else []

unfoldable pub run_open : Endian → Qt → Worker → ℕ → Answers → Option (Worker × List Event)
run_open e q wk handle a = do
  (wk', posted) ← capture_loop e q (record wk { pp = some handle }) (delivered wk.bfs_ft a)
  some (
    record wk' { pp = none },
    set_wk_pp (some handle)
        ∷ set_wk_life true
        ∷ (posted ++ set_wk_pp none ∷ set_wk_life false ∷ []),
  )

unfoldable pub run_handle : Endian → Qt → Worker → Handle → Answers → Option (Worker × List Event)
run_handle e q wk none a =
    some (record wk { pp = none }, set_wk_life false ∷ set_wk_flag false ∷ [])
run_handle e q wk (some handle) a = run_open e q wk handle a

unfoldable pub set_capture : Endian → Qt → Worker → Answers → Option (Worker × List Event)
set_capture e q wk a = run_handle e q wk a.opened a
