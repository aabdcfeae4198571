-- ===== src/Pcap/Tree/Item.antt =====
-- The nodes that start_tree_md links by TreeItem::addChild: a title, and children in the order in
-- which they are added.
use mini_wireshark.Base.{ℕ, suc, List, [], ◌∷◌}
use mini_wireshark.Qt.{QString}

mutual
  pub data Item : Type 0 where
    item : QString → Items → Item

  pub data Items : Type 0 where
    last : Items
    more : Item → Items → Items

abbrev pub items : List Item → Items
items [] = last
items (x ∷ xs) = more x (items xs)

abbrev pub node : QString → List Item → Item
node title children = item title (items children)

abbrev pub leaf : QString → Item
leaf title = item title last

abbrev pub title : Item → QString
title (item t children) = t

abbrev pub child_count : Item → ℕ
child_count (item t children) = count children
  where
    count : Items → ℕ
    count last = 0
    count (more x xs) = suc (count xs)
