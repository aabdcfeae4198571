-- ===== src/Pcap/State.antt =====
-- Pcap.h, class Pcap: the fields, and the operations that set them.
use mini_wireshark.Base.{ℕ, Bool, false, List, [], ◌∷◌, ◌++◌, none}
use mini_wireshark.Packet.Rows.{StPkt, DumpData}
use mini_wireshark.Worker.Event.{Handle, Event}
use mini_wireshark.Capture.Model
use mini_wireshark.Capture.Model.{Capture, new_capture}

pub record Pcap : Type 0 where
  pub wk_life : Bool
  pub wk_pp : Handle
  pub md : Capture
  pub p_pcap : Handle
  pub num : ℕ
  pub vec_dump : List DumpData
  pub vec_dump_file : List DumpData
  pub stop_flag : Bool
  pub wk_flag : Bool

unfoldable pub new_pcap : Pcap
new_pcap = record {
  wk_life = false;
  wk_pp = none;
  md = new_capture;
  p_pcap = none;
  num = 0;
  vec_dump = [];
  vec_dump_file = [];
  stop_flag = false;
  wk_flag = false;
}

unfoldable pub update_md : Pcap → StPkt → Pcap
update_md s pkt = record s { md = Model.update_md s.md pkt }

unfoldable pub dump_push_back : Pcap → DumpData → Pcap
dump_push_back s d = record s { vec_dump = s.vec_dump ++ d ∷ [] }

unfoldable pub set_wk_pp : Pcap → Handle → Pcap
set_wk_pp s set = record s { wk_pp = set }

unfoldable pub set_wk_life : Pcap → Bool → Pcap
set_wk_life s set = record s { wk_life = set }

unfoldable pub set_stop_flag : Pcap → Bool → Pcap
set_stop_flag s set = record s { stop_flag = set }

unfoldable pub set_wk_flag : Pcap → Bool → Pcap
set_wk_flag s set = record s { wk_flag = set }

unfoldable pub get_md : Pcap → Capture
get_md s = s.md

unfoldable pub get_stop_flag : Pcap → Bool
get_stop_flag s = s.stop_flag

unfoldable pub get_wk_flag : Pcap → Bool
get_wk_flag s = s.wk_flag

-- The thread of the object runs a queued call.
unfoldable pub deliver : Pcap → Event → Pcap
unfolding update_md dump_push_back set_wk_pp set_wk_life set_wk_flag
deliver s (Event.update_md pkt) = update_md s pkt
deliver s (Event.dump_push_back d) = dump_push_back s d
deliver s (Event.set_wk_pp set) = set_wk_pp s set
deliver s (Event.set_wk_life set) = set_wk_life s set
deliver s (Event.set_wk_flag set) = set_wk_flag s set

-- Queued calls run in the order in which they were posted.
unfoldable pub deliver_all : Pcap → List Event → Pcap
unfolding deliver
deliver_all s [] = s
deliver_all s (m ∷ ms) = deliver_all (deliver s m) ms
