-- ===== src/NicList.antt =====
-- NicList.h and NicList.cpp: the list of capture interfaces. What pcap_findalldevs answers is an
-- argument.
pub mod Laws
use mini_wireshark.Base.{
  ℕ, ◌+◌, ◌%◌, Bool, true, false, ◌&&◌, ◌||◌, not, List, [], ◌∷◌, ◌++◌, Option, none, some, length,
  leb, ◌==◌, if◌then◌else◌, get_elem?, ◌>>=◌, String,
}
use mini_wireshark.Qt.{QString, qs, Qt}
use mini_wireshark.Qt.ListModel.{ModelIndex, invalid, at_row, is_valid, Variant, null, int, text}

-- enum nic_op
abbrev pub op_loop : ℕ
op_loop = 1

abbrev pub op_wlo : ℕ
op_wlo = 2

abbrev pub op_ethernet : ℕ
op_ethernet = 3

abbrev pub op_virtual : ℕ
op_virtual = 4

abbrev pub op_any : ℕ
op_any = 5

-- pcap_if_t: a null name or description is `none`.
pub record Device : Type 0 where
  pub name : Option QString
  pub description : Option QString
  pub flags : ℕ

abbrev pub text_or_empty : Option QString → QString
text_or_empty none = []
text_or_empty (some s) = s

unfoldable pub has_any : Qt → QString → List String → Bool
has_any q key [] = false
has_any q key (w ∷ ws) = q.contains key (qs w) || has_any q key ws

-- PCAP_IF_LOOPBACK is 1. The tests are made in the order of the source.
unfoldable pub compare_nic : Qt → QString → ℕ → QString → ℕ
compare_nic q name flags description =
    let key : QString = q.to_lower (name ++ (qs " " ++ description)) in
    if flags % 2 == 1
    then op_loop
    else if q.starts_with name (qs "wl")
        || has_any q key ("wi-fi" ∷ "wireless" ∷ "wlan" ∷ "802.11" ∷ [])
    then op_wlo
    else if has_any q key ("virtual" ∷ "vmware" ∷ "virtualbox" ∷ "hyper-v" ∷ "npf_loopback" ∷ [])
    then op_virtual
    else if q.starts_with name (qs "en")
        || (q.starts_with name (qs "eth") || has_any q key ("ethernet" ∷ "realtek" ∷ "intel" ∷ []))
    then op_ethernet
    else if q.starts_with name (qs "vmnet") || q.starts_with name (qs "vbox")
    then op_virtual
    else op_ethernet

-- A row of the list: name and kind.
abbrev pub Nic : Type 0
Nic = QString × ℕ

-- A device with a name is kept if its kind is the one asked for, or if any is and its kind is not 0.
unfoldable pub accepts : ℕ → ℕ → Bool
accepts set_flag flag =
    (not (set_flag == op_any) && flag == set_flag) || (set_flag == op_any && not (flag == 0))

unfoldable pub add_device : Qt → ℕ → Device → Option QString → List Nic → List Nic
add_device q set_flag d none rest = rest
add_device q set_flag d (some name) rest =
    let flag : ℕ = compare_nic q name d.flags (text_or_empty d.description) in
    if accepts set_flag flag then (name, flag) ∷ rest else rest

unfoldable pub device_loop : Qt → ℕ → List Device → List Nic
device_loop q set_flag [] = []
device_loop q set_flag (d ∷ ds) = add_device q set_flag d d.name (device_loop q set_flag ds)

-- `vec.clear()`
abbrev pub clear : List Nic → List Nic
clear vec = []

-- The list before is an argument; `none` is the error -1 of pcap_findalldevs.
unfoldable pub set_nic : Qt → List Nic → ℕ → Option (List Device) → List Nic
set_nic q vec set_flag none = clear vec
set_nic q vec set_flag (some devices) = clear vec ++ device_loop q set_flag devices

unfoldable pub get_first_nic : List Nic → QString
get_first_nic [] = []
get_first_nic ((name, flag) ∷ rest) = name

-- The constructor asks for any kind.
unfoldable pub new_nic_list : Qt → Option (List Device) → List Nic
new_nic_list q devices = set_nic q [] op_any devices

-- enum Role, from Qt::UserRole + 1 on; any other role is `other_role`.
pub data Role : Type 0 where
  text_role type_role other_role : Role

unfoldable pub role_names : List (Role × QString)
role_names = (text_role, qs "text") ∷ (type_role, qs "type") ∷ []

unfoldable pub row_count : List Nic → ModelIndex → ℕ
row_count vec parent = if is_valid parent then 0 else length vec

unfoldable pub cell : Nic → Role → Variant
cell (str, type) text_role = text str
cell (str, type) type_role = int type
cell (str, type) other_role = null

-- `vec.at` is asked for a row only behind the test; outside it would be a fault.
unfoldable pub model_data : List Nic → ModelIndex → Role → Option Variant
unfolding cell
model_data vec invalid role = some null
model_data vec (at_row i) role =
    if leb (length vec) i then some null else do nic ← get_elem? vec i; some (cell nic role)
