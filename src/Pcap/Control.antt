-- ===== src/Pcap/Control.antt =====
-- Pcap.cpp: the buttons of the capture view: create_Th, stop_Th and reset_md.
use mini_wireshark.Base.{true, false, [], ◌∷◌, Option, none, some, if◌then◌else◌}
use mini_wireshark.Qt.{QString}
use mini_wireshark.Worker.Event.{Handle, Worker, fresh_worker, set_nic_name, set_bfs_ft}
use mini_wireshark.Capture.Model
use mini_wireshark.Pcap.State.{Pcap, set_stop_flag, set_wk_flag}

-- A new worker with the name and the filter that were set.
unfoldable pub new_worker : QString → QString → Worker
new_worker nic_name filter = set_bfs_ft (set_nic_name fresh_worker nic_name) filter

abbrev pub clear_all : Pcap → Pcap
clear_all s = record s { md = Model.reset s.md; vec_dump_file = []; vec_dump = [] }

-- The new state, and the worker whose thread is started; none without an interface.
unfoldable pub create_th : Pcap → QString → QString → Pcap × Option Worker
unfolding new_worker set_stop_flag set_wk_flag
create_th s [] filter = (s, none)
create_th s (c ∷ name) filter =
    (clear_all (set_wk_flag (set_stop_flag s false) true), some (new_worker (c ∷ name) filter))

-- The new state, and the handle on which pcap_breakloop is called.
unfoldable pub stop_handle : Pcap → Handle → Pcap × Handle
unfolding set_stop_flag set_wk_flag
stop_handle s none = (s, none)
stop_handle s (some h) = (set_wk_flag (set_stop_flag s true) false, some h)

unfoldable pub stop_th : Pcap → Pcap × Handle
unfolding stop_handle
stop_th s = stop_handle s s.wk_pp

-- Refused while the worker lives.
unfoldable pub reset_md : Pcap → Pcap
reset_md s = if s.wk_life then s else clear_all s
