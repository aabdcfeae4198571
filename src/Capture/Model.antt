-- ===== src/Capture/Model.antt =====
-- Capture.h and Capture.cpp: the rows of the packet list, the flags of the sort buttons, and the
-- operations of the model but the sorts. What they tell the views is in Notices.
use mini_wireshark.Base.{
  ℕ, Bool, false, List, [], ◌∷◌, ◌++◌, Option, some, length, leb, if◌then◌else◌, get_elem?, ◌>>=◌,
}
use mini_wireshark.Qt.{QString, qs}
use mini_wireshark.Qt.ListModel.{ModelIndex, invalid, at_row, is_valid, Variant, null, int, text}
use mini_wireshark.Packet.Rows.{StPkt}

pub record Capture : Type 0 where
  pub vec : List StPkt
  pub num_flag : Bool
  pub src_flag : Bool
  pub dst_flag : Bool
  pub proto_flag : Bool
  pub len_flag : Bool
  pub proto_num : ℕ

-- The state that the constructor leaves.
unfoldable pub new_capture : Capture
new_capture = record {
  vec = [];
  num_flag = false;
  src_flag = false;
  dst_flag = false;
  proto_flag = false;
  len_flag = false;
  proto_num = 0;
}

unfoldable pub row_count : Capture → ModelIndex → ℕ
row_count c parent = if is_valid parent then 0 else length c.vec

-- enum Role, from Qt::UserRole + 1 on; any other role is `other_role`.
pub data Role : Type 0 where
  num_role src_role dst_role proto_role len_role info_role other_role : Role

unfoldable pub role_names : List (Role × QString)
role_names =
    (num_role, qs "number")
    ∷ (src_role, qs "source")
    ∷ (dst_role, qs "destination")
    ∷ (proto_role, qs "protocol")
    ∷ (len_role, qs "length")
    ∷ (info_role, qs "info")
    ∷ []

unfoldable pub cell : StPkt → Role → Variant
cell pkt num_role = int pkt.num
cell pkt src_role = text pkt.src
cell pkt dst_role = text pkt.dst
cell pkt proto_role = text pkt.proto
cell pkt len_role = int pkt.len
cell pkt info_role = text pkt.info
cell pkt other_role = null

-- `vec.at` is asked for a row only behind the test; outside it would be a fault.
unfoldable pub model_data : Capture → ModelIndex → Role → Option Variant
unfolding cell
model_data c invalid role = some null
model_data c (at_row i) role =
    if leb (length c.vec) i then some null else do pkt ← get_elem? c.vec i; some (cell pkt role)

unfoldable pub update_md : Capture → StPkt → Capture
update_md c pkt = record c { vec = c.vec ++ pkt ∷ [] }

unfoldable pub reset : Capture → Capture
reset c = record c { vec = [] }
