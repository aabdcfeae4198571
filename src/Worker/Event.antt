-- ===== src/Worker/Event.antt =====
-- Pcap.h, class Worker: the fields; and the calls that the worker queues for the thread of the
-- Pcap object by QMetaObject::invokeMethod with Qt::QueuedConnection.
use mini_wireshark.Base.{ℕ, Bool, [], Option, none}
use mini_wireshark.Qt.{QString}
use mini_wireshark.Packet.Rows.{StPkt, DumpData}

-- The handle of an open capture (pcap_t*); `none` is nullptr.
abbrev pub Handle : Type 0
Handle = Option ℕ

pub record Worker : Type 0 where
  pub pp : Handle
  pub num : ℕ
  pub nic_name : QString
  pub bfs_ft : QString

-- The constructor, and the two operations that keep a text. The pointer of set_p_Pcap is left out:
-- the calls are queued for the one Pcap object.
abbrev pub fresh_worker : Worker
fresh_worker = record { pp = none; num = 0; nic_name = []; bfs_ft = [] }

abbrev pub set_nic_name : Worker → QString → Worker
set_nic_name wk set = record wk { nic_name = set }

abbrev pub set_bfs_ft : Worker → QString → Worker
set_bfs_ft wk set = record wk { bfs_ft = set }

pub data Event : Type 0 where
  update_md : StPkt → Event
  dump_push_back : DumpData → Event
  set_wk_pp : Handle → Event
  set_wk_life : Bool → Event
  set_wk_flag : Bool → Event
