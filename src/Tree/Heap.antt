-- ===== src/Tree/Heap.antt =====
-- TreeItem.h and TreeItem.cpp: nodes with pointers to their children and to their parent. A pointer
-- is the place of a node on the heap; a pointer to no node is a fault. A place is never used again;
-- which are deleted is kept beside the heap.
use mini_wireshark.Base.{
  ℕ, zero, suc, Bool, false, ◌||◌, List, [], ◌∷◌, ◌++◌, Option, none, some, length, get_elem?, ◌==◌,
  if◌then◌else◌, ◌>>=◌,
}
use mini_wireshark.Base.Int.{ℤ, pos, negsuc}
use mini_wireshark.Qt.{QString}

pub record TreeItem : Type 0 where
  pub s_title : QString
  pub children : List ℕ
  pub parent : Option ℕ

abbrev pub Heap : Type 0
Heap = List TreeItem

-- A write to a place of a list; none outside.
abbrev pub set {ℓ} : {A : Type ℓ} → List A → ℕ → A → List A
set [] i v = []
set (x ∷ xs) zero v = v ∷ xs
set (x ∷ xs) (suc i) v = x ∷ set xs i v

-- `new TreeItem(title, p)`: the heap and the pointer. The parent does not know of the node yet.
unfoldable pub new_item : Heap → QString → Option ℕ → Heap × ℕ
new_item h title p = (h ++ (record { s_title = title; children = []; parent = p }) ∷ [], length h)

-- `p->addChild(c)`
unfoldable pub add_child : Heap → ℕ → ℕ → Option Heap
add_child h p c = do
  x ← get_elem? h p
  let linked : Heap = set h p (record x { children = x.children ++ c ∷ [] })
  y ← get_elem? linked c
  some (set linked c (record y { parent = some p }))

-- `children.value(row, nullptr)`
unfoldable pub child : Heap → ℕ → ℕ → Option (Option ℕ)
child h p row = do x ← get_elem? h p; some (get_elem? x.children row)

unfoldable pub child_count : Heap → ℕ → Option ℕ
child_count h p = do x ← get_elem? h p; some (length x.children)

-- `indexOf`: the first place of a pointer, or -1.
unfoldable pub index_from : ℕ → ℕ → List ℕ → ℤ
index_from i c [] = negsuc 0
index_from i c (d ∷ ds) = let rest : ℤ = index_from (suc i) c ds in if d == c then pos i else rest

unfoldable pub row_in : Heap → ℕ → Option ℕ → Option ℤ
row_in h c none = some (pos 0)
row_in h c (some p) = do x ← get_elem? h p; some (index_from 0 c x.children)

-- `row()`: 0 for a node with no parent.
unfoldable pub row : Heap → ℕ → Option ℤ
unfolding row_in
row h c = do x ← get_elem? h c; row_in h c x.parent

abbrev pub has : ℕ → List ℕ → Bool
has p [] = false
has p (q ∷ qs) = p == q || has p qs

-- The loop of the destructor.
unfoldable pub delete_each : (List ℕ → ℕ → Option (List ℕ)) → List ℕ → List ℕ → Option (List ℕ)
delete_each f freed [] = some freed
delete_each f freed (v ∷ vs) = do freed' ← f freed v; delete_each f freed' vs

-- `delete p`: the destructor deletes the children, then the node is given back. A node that is
-- deleted already, or that is none, is a fault; so is a depth of more than the fuel.
unfoldable pub delete_item : ℕ → Heap → List ℕ → ℕ → Option (List ℕ)
unfolding delete_each
delete_item zero h freed p = none
delete_item (suc fuel) h freed p = if has p freed then none else do
  x ← get_elem? h p
  freed' ← delete_each (delete_item fuel h) freed x.children
  some (p ∷ freed')
