-- ===== src/Tree/Walk.antt =====
-- TreeModel::index and TreeModel::parent over a tree that is built as start_tree_md builds it.
use mini_wireshark.Base.{
  ℕ, ◌+◌, true, false, Bool-cases, inl, inr, ==_iff, ◌≡◌, ◌≢◌, refl, ◌∙◌, sym, ap, [], ◌∷◌, ◌++◌,
  Option, none, some, arith, get_elem?, ◌==◌, >>=-eq-some,
}
use mini_wireshark.Base.Int.{pos}
use mini_wireshark.Qt.{QString}
use mini_wireshark.Tree.Heap.{TreeItem, Heap, new_item, child, row, row_in}
use mini_wireshark.Tree.Model.{
  index_or_invalid, ModelIndex, invalid, create_index, TreeModel, item_of, index, is_top,
  parent_index, parent,
}
use mini_wireshark.Tree.Links.{
  Links, attach, attach-linked, Links-linked, index_from-get_elem?, get_elem?-snoc, get_elem?-lt,
}
use mini_wireshark.Tree.Heap.{index_from}

-- The heaps of trees that are grown child by child, one after the other.
pub data Built : Heap → Type 0 where
  bare : Built []
  plant : {h : Heap} (t : QString) → Built h → Built (new_item h t none).0
  grow :
      {h h' : Heap} {c : ℕ} (t : QString) (p : ℕ) (x : TreeItem)
      → Built h
      → get_elem? h p ≡ some x
      → attach h t p ≡ some (h', c)
      → Built h'

bare-Links : Links []
bare-Links = record {
  up = λ p r c x at kid. ground arith;
  once = λ p r s c x at kid other. ground arith;
}

root-Links : {h : Heap} (t : QString) → Links h → Links (new_item h t none).0
unfolding new_item
root-Links {h} t l = record {
  up = λ p r c x at kid.
      let old : get_elem? h p ≡ some x = not_new p r c x at kid in
      let (y, there, up) = l.up p r c x old kid in
      (y, ground (arith, get_elem?-snoc h root c, get_elem?-lt h c y there), up);
  once = λ p r s c x at kid other. l.once p r s c x (not_new p r c x at kid) kid other;
}
  where
    root : TreeItem
    root = record { s_title = t; children = []; parent = none }

    not_new :
        (p r c : ℕ) (x : TreeItem)
        → get_elem? (h ++ root ∷ []) p ≡ some x
        → get_elem? x.children r ≡ some c
        → get_elem? h p ≡ some x
    not_new p r c x at kid = ground (arith, get_elem?-snoc h root p)

same_heap : {h k : Heap} {c d : ℕ} → ◌≡◌ {A = Option (Heap × ℕ)} (some (h, c)) (some (k, d)) → h ≡ k
same_heap e = cc e

-- In a heap of trees that are grown by `new TreeItem(title, p)` and `p->addChild(c)`, each child
-- of a node stands once in its list and names the node as its parent.
pub Built-Links : {h : Heap} → Built h → Links h
Built-Links bare = bare-Links
Built-Links (plant t b) = root-Links t (Built-Links b)
Built-Links (grow {h} t p x b here made) =
    rw (← same_heap (sym (attach-linked h t p x here) ∙ made))
      (Links-linked h t p x here (Built-Links b))

-- The shown root is a node with no parent.
pub record HasRoot (m : TreeModel) : Type 0 where
  pub place : ℕ
  pub node : TreeItem
  pub is_root : m.root ≡ some place
  pub there : get_elem? m.heap place ≡ some node
  pub no_parent : node.parent ≡ none

-- The indices that the model makes: none for the root, row and column 0 for any other node.
abbrev pub IsIndex : TreeModel → ModelIndex → Type 0
IsIndex m invalid = Unit
IsIndex m (create_index r column p) = (m.root ≢ some p) × (row m.heap p ≡ some r) × (column ≡ 0)

some_place : {p q : ℕ} → some p ≡ some q → p ≡ q
some_place h = cc h

is_top-true : (shown : Option ℕ) (p : ℕ) → shown ≡ some p → is_top shown p ≡ true
unfolding is_top
is_top-true none p h = ground arith
is_top-true (some shown) p h = let e : shown ≡ p = some_place h in ground arith

is_top-false : (shown : Option ℕ) (p : ℕ) → shown ≢ some p → is_top shown p ≡ false
unfolding is_top
is_top-false none p h = refl
is_top-false (some shown) p h = elim (Bool-cases (p == shown)) [
  | inl same ↦ absurd (h (ap some (sym ((==_iff p shown).0 same))))
  | inr differ ↦ differ
]

module _ (m : TreeModel) (b : Built m.heap) (base : HasRoot m) where
  index-kid :
      (i : ModelIndex) (r c : ℕ)
      → index m r 0 i ≡ some (create_index (pos r) 0 c)
      → (p : ℕ) × (x : TreeItem) × (item_of m i ≡ some p)
        × (get_elem? m.heap p ≡ some x)
        × (get_elem? x.children r ≡ some c)
  unfolding index child
  index-kid i r c h =
      let (p, at, step) = >>=-eq-some (item_of m i) _ h in
      let (found, looked, made) = >>=-eq-some (child m.heap p r) _ step in
      let (x, here, kids) = >>=-eq-some (get_elem? m.heap p) _ looked in
      (p, x, at, here, found_kid found (get_elem? x.children r) kids made)
    where
      found_kid :
          (found kid : Option ℕ)
          → some kid ≡ some found
          → some (index_or_invalid r 0 found) ≡ some (create_index (pos r) 0 c)
          → kid ≡ some c
      found_kid none kid e made = ground arith
      found_kid (some d) kid e made = cc

  -- In a tree that is built node by node with addChild and whose root is shown, for an index that
  -- stands for the root or for a node in its row: the parent of the index of a child is that index
  -- again, and the index of the child stands for the child in its row.
  pub parent-index :
      (i : ModelIndex) (r c : ℕ)
      → IsIndex m i
      → index m r 0 i ≡ some (create_index (pos r) 0 c)
      → (parent m (create_index (pos r) 0 c) ≡ some i) × IsIndex m (create_index (pos r) 0 c)
  unfolding parent parent_index is_top row row_in item_of
  parent-index i r c is kid =
      let (p, x, at, here, one) = index-kid i r c kid in
      let links : Links m.heap = Built-Links b in
      let (y, there, up) = links.up p r c x here one in
      let counted : index_from 0 c x.children ≡ pos (0 + r) =
        index_from-get_elem? 0 r c x.children one
          (λ s other. links.once p r s c x here one other) in
      let placed : row m.heap c ≡ some (pos r) =
        rw (there, up, here, counted) (ap (λ n. some (pos n)) (omega arith)) in
      let low : m.root ≢ some c = λ top. not_root c y p there up top in
      (parent_of i p y is at there up, (low, placed, refl))
    where
      not_root :
          (c : ℕ) (y : TreeItem) (p : ℕ)
          → get_elem? m.heap c ≡ some y
          → y.parent ≡ some p
          → m.root ≡ some c
          → ⊥
      not_root c y p there up top =
          let same : base.place ≡ c = some_place (sym base.is_root ∙ top) in
          let both : some y ≡ some base.node =
            sym there ∙ ap (get_elem? m.heap) (sym same) ∙ base.there in
          absurd (cc (both, up, base.no_parent))

      parent_of :
          (i : ModelIndex) (p : ℕ) (y : TreeItem)
          → IsIndex m i
          → item_of m i ≡ some p
          → get_elem? m.heap c ≡ some y
          → y.parent ≡ some p
          → parent m (create_index (pos r) 0 c) ≡ some i
      parent_of invalid p y is at there up = rw (there, up, is_top-true m.root p at) refl
      parent_of (create_index r0 column q) p y is at there up =
          let same : q ≡ p = some_place at in
          let known : m.root ≢ some p = rw (← same) is.0 in
          let at_row : row m.heap p ≡ some r0 = rw (← same) is.1 in
          let first : column ≡ 0 = is.2 in
          rw (there, up, is_top-false m.root p known, at_row, first, same) refl
