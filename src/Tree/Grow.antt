-- ===== src/Tree/Grow.antt =====
-- A header tree on the heap: Pcap::start_tree_md makes each node by `new TreeItem(title, p)` and
-- `p->addChild(c)`. Here the children of a node are filled before its next sibling is made; the
-- source makes some siblings first, which differs in the places of the nodes only.
use mini_wireshark.Base.{
  ℕ, suc, ◌<◌, ◌≤◌, ◌≡◌, ◌≢◌, refl, List, [], ◌∷◌, ◌++◌, Option, some, arith, length, get_elem?,
  ◌>>=◌, append_assoc, append-nil,
}
use mini_wireshark.Pcap.Tree.Item.{Item, Items, item, last, more}
use mini_wireshark.Tree.Heap.{TreeItem, Heap}
use mini_wireshark.Tree.Links.{
  attach, attach-linked, fresh, grown, linked, get_elem?-linked, get_elem?-lt, length-linked,
}
use mini_wireshark.Tree.Delete.{Laid, no_items, one_item, Laid-le}
use mini_wireshark.Tree.Walk.{Built, grow}

-- Hang children and what is below them under a node.
unfoldable pub build : Heap → ℕ → Items → Option Heap
build h p last = some h
build h p (more (item t kids) rest) = do
  made ← attach h t p
  filled ← build made.0 made.1 kids
  build filled p rest

-- The heap holds an item at p: its title, and its children in their order. All its nodes are at
-- `lo` or above.
abbrev mutual
  pub IsItem : Heap → ℕ → ℕ → Item → Type 0
  IsItem h lo p (item t kids) =
      (lo ≤ p)
      × (x : TreeItem) × (get_elem? h p ≡ some x)
      × (x.s_title ≡ t)
      × AreItems h lo x.children kids

  pub AreItems : Heap → ℕ → List ℕ → Items → Type 0
  AreItems h lo [] last = Unit
  AreItems h lo [] (more i is) = ⊥
  AreItems h lo (c ∷ cs) last = ⊥
  AreItems h lo (c ∷ cs) (more i is) = IsItem h lo c i × AreItems h lo cs is

-- The nodes at `lo` or above stay.
abbrev pub Stay : Heap → Heap → ℕ → Type 0
Stay h h' lo = (q : ℕ) (y : TreeItem) → lo ≤ q → get_elem? h q ≡ some y → get_elem? h' q ≡ some y

AreItems-Stay :
    (h h' : Heap) (lo lo' : ℕ) (cs : List ℕ) (kids : Items)
    → lo' ≤ lo
    → Stay h h' lo
    → AreItems h lo cs kids
    → AreItems h' lo' cs kids
AreItems-Stay h h' lo lo' [] last low stay a = tt
AreItems-Stay h h' lo lo' [] (more i is) low stay a = absurd a
AreItems-Stay h h' lo lo' (c ∷ cs) last low stay a = absurd a
AreItems-Stay h h' lo lo' (c ∷ cs) (more (item t kids) is) low stay
      ((at, x, there, title, under), a) =
    (
      (
        omega arith,
        x,
        stay c x at there,
        title,
        AreItems-Stay h h' lo lo' x.children kids low stay under,
      ),
      AreItems-Stay h h' lo lo' cs is low stay a,
    )

pub Laid-Stay :
    {h h' : Heap} {lo hi : ℕ} {cs : List ℕ} (from : ℕ)
    → Stay h h' from
    → from ≤ lo
    → Laid h lo cs hi
    → Laid h' lo cs hi
Laid-Stay from stay low no_items = no_items
Laid-Stay {lo} from stay low (one_item x there under rest) =
    one_item x (stay lo x low there) (Laid-Stay from stay (omega arith) under)
      (Laid-Stay from stay (omega (arith, Laid-le under)) rest)

-- What building under p leaves.
pub record Grown (h : Heap) (p : ℕ) (x : TreeItem) (kids : Items) : Type 0 where
  pub heap : Heap
  pub built : build h p kids ≡ some heap
  pub longer : length h ≤ length heap
  pub others : (q : ℕ) (y : TreeItem) → q ≢ p → get_elem? h q ≡ some y → get_elem? heap q ≡ some y
  pub places : List ℕ
  pub node : get_elem? heap p ≡ some (record x { children = x.children ++ places })
  pub items : AreItems heap (length h) places kids
  pub still : Built h → Built heap
  pub laid : Laid heap (length h) places (length heap)

-- Building changes no node but p, whose children it appends in their order, and every item is
-- there.
pub build-Grown :
    (kids : Items) (h : Heap) (p : ℕ) (x : TreeItem) → get_elem? h p ≡ some x → Grown h p x kids
unfolding build
build-Grown last h p x here = record {
  heap = h;
  built = refl;
  longer = omega arith;
  others = λ q y other there. there;
  places = [];
  node = rw (append-nil x.children) here;
  items = tt;
  still = λ b. b;
  laid = no_items;
}
build-Grown (more (item t kids) rest) h p x here =
    let c : ℕ = length h in
    let h1 : Heap = linked h t p x here in
    let below : p < c = get_elem?-lt h p x here in
    let size : length h1 ≡ suc c = length-linked h t p x here in
    let at_p : get_elem? h1 p ≡ some (grown h t p x here) =
      ground (arith, get_elem?-linked h t p x here p) in
    let at_c : get_elem? h1 c ≡ some (fresh h t p x here) =
      ground (arith, get_elem?-linked h t p x here c) in
    let g = build-Grown kids h1 c (fresh h t p x here) at_c in
    let g' = build-Grown rest g.heap p (grown h t p x here) (g.others p _ (omega arith) at_p) in
    record {
      heap = g'.heap;
      built = rw (attach-linked h t p x here, g.built) g'.built;
      longer = omega (arith, g.longer, g'.longer);
      others = λ q y other there.
          let old : q < c = get_elem?-lt h q y there in
          let kept : get_elem? h1 q ≡ some y = ground (arith, get_elem?-linked h t p x here q) in
          g'.others q y other (g.others q y (omega arith) kept);
      places = c ∷ g'.places;
      node = rw (← append_assoc x.children (c ∷ []) g'.places) g'.node;
      items = (
        (
          omega arith,
          _,
          g'.others c _ (omega arith) g.node,
          refl,
          AreItems-Stay g.heap g'.heap (length h1) c g.places kids (omega arith)
              (λ q y at there. g'.others q y (omega arith) there) g.items,
        ),
        AreItems-Stay g'.heap g'.heap (length g.heap) c g'.places rest (omega (arith, g.longer))
            (λ q y at there. there) g'.items,
      );
      laid =
          one_item _ (g'.others c _ (omega arith) g.node)
            (Laid-Stay (suc c) (λ q y at there. g'.others q y (omega arith) there) (omega arith)
              (rw size at g.laid))
            g'.laid;
      still = λ b. g'.still (g.still (grow t p x b here (attach-linked h t p x here)));
    }
