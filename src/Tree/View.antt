-- ===== src/Tree/View.antt =====
-- What a view reads of the tree model, once Pcap::start_tree_md has filled it.
use Prim.Native.Nat.{max}
use mini_wireshark.Base.{
  ℕ, zero, suc, ◌+◌, ◌<◌, ◌≤◌, ◌≡◌, refl, ◌∙◌, ap, true, List, [], ◌∷◌, Option, none, some, arith,
  length, get_elem?, ◌>>=◌,
}
use mini_wireshark.Base.Int.{pos}
use mini_wireshark.Pcap.Tree.Item.{Items, item, last, more}
use mini_wireshark.Tree.Heap.{TreeItem, child, child_count}
use mini_wireshark.Tree.Model.{
  ModelIndex, create_index, TreeModel, item_of, index, row_count, model_data,
}
use mini_wireshark.Tree.Grow.{AreItems}

-- A view's walk: for the rows from r on, n of them, below an index, the text and what `below` reads
-- under the row's own index.
unfoldable pub read_rows :
    (ModelIndex → Option Items) → TreeModel → ModelIndex → ℕ → ℕ → Option Items
read_rows below m i r zero = some last
read_rows below m i r (suc n) = do
  k ← index m r 0 i
  shown ← model_data m k true
  title ← shown
  kids ← below k
  rest ← read_rows below m i (suc r) n
  some (more (item title kids) rest)

-- `depth` levels are unfolded, and there may be no more.
unfoldable pub read_below : ℕ → TreeModel → ModelIndex → Option Items
read_below zero m i = none
read_below (suc depth) m i = do n ← row_count m i; read_rows (read_below depth m) m i 0 n

-- The levels below an item, with the one that is empty.
unfoldable pub levels : Items → ℕ
levels last = 1
levels (more (item t kids) is) = max (suc (levels kids)) (levels is)

levels-pos : (kids : Items) → 0 < levels kids
unfolding levels
levels-pos last = omega arith
levels-pos (more (item t kids) is) = omega (arith, levels-pos is)

-- Enough depth for the items.
abbrev Reads : ℕ → TreeModel → Type 0
Reads depth m =
    (kids : Items) (lo p : ℕ) (i : ModelIndex) (x : TreeItem)
    → item_of m i ≡ some p
    → get_elem? m.heap p ≡ some x
    → AreItems m.heap lo x.children kids
    → levels kids ≤ depth
    → read_below depth m i ≡ some kids

module _ (m : TreeModel) (depth : ℕ) (reads : Reads depth m) (lo p : ℕ) (i : ModelIndex)
    (x : TreeItem) (at : item_of m i ≡ some p) (here : get_elem? m.heap p ≡ some x) where
  index-child :
      (r c : ℕ) → get_elem? x.children r ≡ some c → index m r 0 i ≡ some (create_index (pos r) 0 c)
  unfolding index child
  index-child r c kid = rw (at, here, kid) refl

  read_rows-AreItems :
      (cs : List ℕ) (kids : Items) (r : ℕ)
      → ((j : ℕ) → get_elem? x.children (r + j) ≡ get_elem? cs j)
      → AreItems m.heap lo cs kids
      → levels kids ≤ suc depth
      → read_rows (read_below depth m) m i r (length cs) ≡ some kids
  unfolding read_rows levels model_data item_of
  read_rows-AreItems [] last r suffix a deep = refl
  read_rows-AreItems [] (more k is) r suffix a deep = absurd a
  read_rows-AreItems (c ∷ cs) last r suffix a deep = absurd a
  read_rows-AreItems (c ∷ cs) (more (item t kids) is) r suffix ((low, y, there, title, under), a)
        deep =
      let kid : get_elem? x.children r ≡ some c =
        ap (get_elem? x.children) (omega arith) ∙ suffix 0 in
      let later : (j : ℕ) → get_elem? x.children (suc r + j) ≡ get_elem? cs j =
        λ j. ap (get_elem? x.children) (omega arith) ∙ suffix (suc j) in
      let below = reads kids lo c (create_index (pos r) 0 c) y refl there under (omega arith) in
      let rest = read_rows-AreItems cs is (suc r) later a (omega arith) in
      rw (index-child r c kid, there, title, below, rest) refl

pub read_below-AreItems : (m : TreeModel) (depth : ℕ) → Reads depth m
unfolding read_below row_count child_count
read_below-AreItems m zero kids lo p i x at here a deep = absurd (omega (arith, levels-pos kids))
read_below-AreItems m (suc depth) kids lo p i x at here a deep =
    rw (at, here)
      (read_rows-AreItems m depth (read_below-AreItems m depth) lo p i x at here x.children kids 0
        (λ j. ap (get_elem? x.children) (omega arith)) a deep)
