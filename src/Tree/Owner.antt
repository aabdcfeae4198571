-- ===== src/Tree/Owner.antt =====
-- Which nodes are deleted: Pcap::start_tree_md shows a tree after another, TreeModel::setPacketTree
-- and TreeModel::clear delete the tree before.
use mini_wireshark.Base.{
  ℕ, suc, ◌≤◌, ◌≡◌, refl, ◌∙◌, ◌⊎◌, inl, inr, List, [], ◌∷◌, ◌++◌, Option, none, some, arith,
  length, get_elem?, ◌>>=◌, ltb, length-append,
}
use mini_wireshark.Qt.{QString}
use mini_wireshark.Pcap.Tree.Item.{Item, Items, item}
use mini_wireshark.Tree.Heap.{TreeItem, Heap, new_item, has, delete_each, delete_item}
use mini_wireshark.Tree.Model.{
  invalid, TreeModel, item_of, new_tree_model, delete_root, set_packet_tree, clear,
}
use mini_wireshark.Tree.Links.{get_elem?-snoc, get_elem?-lt}
use mini_wireshark.Tree.Delete.{Laid, no_items, one_item, Laid-le, delete_each-Laid}
use mini_wireshark.Tree.Walk.{Built, HasRoot, bare, plant}
use mini_wireshark.Tree.Grow.{build, build-Grown, Stay, Laid-Stay}
use mini_wireshark.Tree.View.{read_below, levels, read_below-AreItems}

-- start_tree_md, from the new root on: setPacketTree deletes the tree before, and the new nodes are
-- hung under the root that is shown already.
unfoldable pub show_tree : TreeModel → Item → Option TreeModel
show_tree m (item t kids) =
    let made : Heap × ℕ = new_item m.heap t none in
    do
      planted ← set_packet_tree (record m { heap = made.0 }) (some made.1)
      filled ← build planted.heap made.1 kids
      some (record planted { heap = filled })

-- The nodes below `place` are deleted, each once, and all others are the shown tree.
pub record Owns (m : TreeModel) : Type 0 where
  pub place : ℕ
  pub dead : (q : ℕ) → has q m.freed ≡ ltb q place
  pub counted : length m.freed ≡ place
  pub shown :
      ((m.root ≡ none) × (place ≡ length m.heap))
      ⊎ ((m.root ≡ some place) × Laid m.heap place (place ∷ []) (length m.heap))
  pub built : Built m.heap

pub new_tree_model-Owns : Owns new_tree_model
unfolding new_tree_model
new_tree_model-Owns = record {
  place = 0;
  dead = λ q. ground arith;
  counted = refl;
  shown = inl (refl, refl);
  built = bare;
}

-- All nodes of a heap are deleted, each once.
abbrev pub AllFreed : Heap → List ℕ → Type 0
AllFreed h freed = ((q : ℕ) → has q freed ≡ ltb q (length h)) × (length freed ≡ length h)

delete_one :
    (o : Option (List ℕ)) (freed : List ℕ)
    → (do f ← o; delete_each (λ f c. none) f []) ≡ some freed
    → o ≡ some freed
unfolding delete_each
delete_one none freed h = cc
delete_one (some f) freed h = h

module _ (m : TreeModel) (owns : Owns m) where
  -- Deleting the root deletes what was not, also once nodes are added to the heap.
  delete_root-AllFreed :
      (h : Heap)
      → Stay m.heap h 0
      → length m.heap ≤ length h
      → (freed : List ℕ) × (delete_root h m.freed m.root ≡ some freed) × AllFreed m.heap freed
  unfolding delete_root delete_each
  delete_root-AllFreed h stay longer = elim owns.shown [
    | inl (empty, all) ↦
        rw empty (m.freed, refl, (λ q. rw (← all) (owns.dead q), owns.counted ∙ all))
    | inr (root, laid) ↦
        let (freed, done, f) =
          delete_each-Laid (Laid-Stay 0 stay (omega arith) laid) (length h) m.freed (omega arith)
            (λ q above below. ground (arith, owns.dead q)) in
        rw root (
          freed,
          delete_one (delete_item (length h) h m.freed owns.place) freed done,
          (
            λ q. ground (arith, f.all q, owns.dead q, Laid-le laid),
            omega (arith, f.once, owns.counted, Laid-le laid),
          ),
        )
  ]

  -- In a model whose nodes are the shown tree or deleted once, any tree of items can be built and
  -- shown in place of the one before, whose nodes are deleted, each once. A view that walks the
  -- model from its invisible root, by row_count, index and data, reads that tree, title by title,
  -- to every depth that is enough for it. The root has no parent, and the nodes of the new model
  -- are again the shown tree or deleted once.
  pub show_tree-read_below :
      (t : QString) (kids : Items) (depth : ℕ)
      → levels kids ≤ depth
      → (shown : TreeModel) × (show_tree m (item t kids) ≡ some shown)
        × (read_below depth shown invalid ≡ some kids)
        × HasRoot shown
        × Owns shown
  unfolding show_tree new_item set_packet_tree item_of
  show_tree-read_below t kids depth deep =
      let root : TreeItem = record { s_title = t; children = []; parent = none } in
      let n : ℕ = length m.heap in
      let h : Heap = m.heap ++ root ∷ [] in
      let size : length h ≡ suc n = length-append m.heap (root ∷ []) ∙ omega arith in
      let at : get_elem? h n ≡ some root = ground (arith, get_elem?-snoc m.heap root n) in
      let stay : Stay m.heap h 0 = λ q y above there.
        ground (arith, get_elem?-snoc m.heap root q, get_elem?-lt m.heap q y there) in
      let (freed, deleted, (dead, counted)) = delete_root-AllFreed h stay (omega arith) in
      let g = build-Grown kids h n root at in
      let shown : TreeModel = record { heap = g.heap; freed = freed; root = some n } in
      (
        shown,
        rw (deleted, g.built) refl,
        read_below-AreItems shown depth kids (length h) n invalid _ refl g.node g.items deep,
        record { place = n; node = _; is_root = refl; there = g.node; no_parent = refl },
        record {
          place = n;
          dead = dead;
          counted = counted;
          shown = inr (refl, one_item _ g.node (rw size at g.laid) no_items);
          built = g.still (plant t owns.built);
        },
      )

  clear-AllFreed :
      (cleared : TreeModel) × (clear m ≡ some cleared)
      × (cleared.root ≡ none)
      × AllFreed cleared.heap cleared.freed
  unfolding clear
  clear-AllFreed =
      let (freed, deleted, all) =
        delete_root-AllFreed m.heap (λ q y above there. there) (omega arith) in
      (record m { root = none; freed = freed }, rw deleted refl, refl, all)

-- Trees are shown one after the other.
abbrev pub show_all : TreeModel → List Item → Option TreeModel
show_all m [] = some m
show_all m (tree ∷ trees) = show_tree m tree >>= λ shown. show_all shown trees

show_all-Owns :
    (trees : List Item) (m : TreeModel)
    → Owns m
    → (shown : TreeModel) × (show_all m trees ≡ some shown) × Owns shown
show_all-Owns [] m owns = (m, refl, owns)
show_all-Owns (item t kids ∷ trees) m owns =
    let (shown, is, _, _, owns') = show_tree-read_below m owns t kids (levels kids) (omega arith) in
    let (end, later, owned) = show_all-Owns trees shown owns' in (end, rw is later, owned)

-- However many trees are shown one after the other in a new model, and cleared at the end: every
-- deletion comes to its end, no node is deleted twice, and at the end every node that was ever made
-- is deleted.
pub show_all-clear :
    (trees : List Item)
    → (cleared : TreeModel) × ((show_all new_tree_model trees >>= clear) ≡ some cleared)
      × (cleared.root ≡ none)
      × AllFreed cleared.heap cleared.freed
show_all-clear trees =
    let (end, shown, owns) = show_all-Owns trees new_tree_model new_tree_model-Owns in
    let (cleared, is, empty, all) = clear-AllFreed end owns in (cleared, rw shown is, empty, all)
