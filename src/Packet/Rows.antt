-- ===== src/Packet/Rows.antt =====
-- Struct_in.h, st_packet, and Pcap.h, dump_data: what the program keeps of a packet; and libpcap's
-- pcap_pkthdr, which it copies.
use mini_wireshark.Base.{ℕ, ◌+◌, Option, none, some, length, take, ltb, if◌then◌else◌}
use mini_wireshark.Qt.{QString}
use mini_wireshark.Packet.Memory.{Bytes}

-- struct pcap_pkthdr
pub record Header : Type 0 where
  pub ts_sec : ℕ
  pub ts_usec : ℕ
  pub caplen : ℕ
  pub len : ℕ

-- st_pkt. `num` and `len` are never negative.
pub record StPkt : Type 0 where
  pub num : ℕ
  pub src : QString
  pub dst : QString
  pub proto : QString
  pub len : ℕ
  pub info : QString

pub record DumpData : Type 0 where
  pub pkt_num : ℕ
  pub header : Header
  pub content : Bytes

-- QByteArray(packet, n): a copy of n bytes, a fault where the buffer is shorter.
unfoldable pub byte_array : Bytes → ℕ → Option Bytes
byte_array p n = if ltb (length p) n then none else some (take n p)

-- `num++` of an int: the old value is used, and the greatest int overflows.
abbrev pub int_max : ℕ
int_max = 2147483647

unfoldable pub increment : ℕ → Option ℕ
increment n = if ltb n int_max then some (n + 1) else none
