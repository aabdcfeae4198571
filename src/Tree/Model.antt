-- ===== src/Tree/Model.antt =====
-- TreeModel.h and TreeModel.cpp: the item model that the tree view walks.
use mini_wireshark.Base.{
  ℕ, Bool, true, false, List, [], ◌∷◌, Option, none, some, get_elem?, length, ◌==◌, not,
  if◌then◌else◌, ◌>>=◌,
}
use mini_wireshark.Base.Int.{ℤ, pos}
use mini_wireshark.Qt.{QString, qs}
use mini_wireshark.Tree.Heap.{Heap, child, child_count, row, delete_item}

-- QModelIndex: invalid, or a row, a column and the internal pointer.
pub data ModelIndex : Type 0 where
  invalid : ModelIndex
  create_index : ℤ → ℕ → ℕ → ModelIndex

pub record TreeModel : Type 0 where
  pub heap : Heap
  pub freed : List ℕ
  pub root : Option ℕ

unfoldable pub new_tree_model : TreeModel
new_tree_model = record { heap = []; freed = []; root = none }

-- The node that an index stands for: the root for an invalid one.
unfoldable pub item_of : TreeModel → ModelIndex → Option ℕ
item_of m invalid = m.root
item_of m (create_index r c p) = some p

abbrev pub index_or_invalid : ℕ → ℕ → Option ℕ → ModelIndex
index_or_invalid r c none = invalid
index_or_invalid r c (some p) = create_index (pos r) c p

unfoldable pub index : TreeModel → ℕ → ℕ → ModelIndex → Option ModelIndex
index m r c parent =
    if not (c == 0)
    then some invalid
    else do p ← item_of m parent; found ← child m.heap p r; some (index_or_invalid r c found)

-- No parent, or the root, is not shown.
unfoldable pub is_top : Option ℕ → ℕ → Bool
is_top none p = false
is_top (some root) p = p == root

unfoldable pub parent_index : TreeModel → Option ℕ → Option ModelIndex
parent_index m none = some invalid
parent_index m (some p) =
    if is_top m.root p then some invalid else do r ← row m.heap p; some (create_index r 0 p)

unfoldable pub parent : TreeModel → ModelIndex → Option ModelIndex
parent m invalid = some invalid
parent m (create_index r c p) = do x ← get_elem? m.heap p; parent_index m x.parent

unfoldable pub row_count : TreeModel → ModelIndex → Option ℕ
row_count m i = do p ← item_of m i; child_count m.heap p

unfoldable pub column_count : TreeModel → ModelIndex → ℕ
column_count m i = 1

-- Only the display role has a text; `none` inside is the null QVariant.
unfoldable pub model_data : TreeModel → ModelIndex → Bool → Option (Option QString)
model_data m invalid display = some none
model_data m (create_index r c p) display =
    if not display then some none else do x ← get_elem? m.heap p; some (some x.s_title)

-- Qt::DisplayRole, here `true`.
unfoldable pub role_names : List (Bool × QString)
role_names = (true, qs "display") ∷ []

-- `if (root != nullptr) delete root;` No tree is deeper than it has nodes.
unfoldable pub delete_root : Heap → List ℕ → Option ℕ → Option (List ℕ)
delete_root h freed none = some freed
delete_root h freed (some p) = delete_item (length h) h freed p

unfoldable pub set_packet_tree : TreeModel → Option ℕ → Option TreeModel
unfolding delete_root
set_packet_tree m new_root = do
  freed ← delete_root m.heap m.freed m.root
  some (record m { root = new_root; freed = freed })

unfoldable pub clear : TreeModel → Option TreeModel
unfolding delete_root
clear m = do
  freed ← delete_root m.heap m.freed m.root
  some (record m { root = none; freed = freed })
