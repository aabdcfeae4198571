-- ===== src/Tests/WalkTests.antt =====
-- A tree of three nodes, built child by child.
use mini_wireshark.Base.{◌≡◌, refl, [], ◌∷◌, none, some, arith}
use mini_wireshark.Base.Int.{pos}
use mini_wireshark.Qt.{qs}
use mini_wireshark.Tree.Heap.{Heap, new_item, add_child, row, row_in, index_from, child}
use mini_wireshark.Tree.Model.{create_index, TreeModel, parent, index, item_of}
use mini_wireshark.Tree.Links.{Links, attach}
use mini_wireshark.Pcap.Tree.Item.{Items, item, more, last}
use mini_wireshark.Tree.Model.{invalid}
use mini_wireshark.Base.{◌>>=◌}
use mini_wireshark.Tree.Model.{new_tree_model, clear}
use mini_wireshark.Tree.Walk.{bare}
use mini_wireshark.Tree.Owner.{
  Owns, AllFreed, new_tree_model-Owns, show_tree, show_tree-read_below, show_all, show_all-clear,
}
use mini_wireshark.Tree.View.{read_below, levels}
use mini_wireshark.Tree.Walk.{Built, HasRoot, IsIndex, plant, grow, parent-index, Built-Links}

abbrev tree : Heap
tree =
    record { s_title = qs "root"; children = 1 ∷ []; parent = none }
    ∷ record { s_title = qs "ip"; children = 2 ∷ []; parent = some 0 }
    ∷ record { s_title = qs "ttl"; children = []; parent = some 1 }
    ∷ []

abbrev trunk : Heap
trunk =
    record { s_title = qs "root"; children = 1 ∷ []; parent = none }
    ∷ record { s_title = qs "ip"; children = []; parent = some 0 }
    ∷ []

tree-Built : Built tree
unfolding attach new_item add_child
tree-Built =
    grow {c = 2} (qs "ttl") 1 (record { s_title = qs "ip"; children = []; parent = some 0 })
      (grow {h' = trunk} {c = 1} (qs "ip") 0
        (record { s_title = qs "root"; children = []; parent = none }) (plant (qs "root") bare) refl
        refl)
      refl refl

abbrev model : TreeModel
model = record { heap = tree; freed = []; root = some 0 }

model-HasRoot : HasRoot model
model-HasRoot = record {
  place = 0;
  node = record { s_title = qs "root"; children = 1 ∷ []; parent = none };
  is_root = refl;
  there = refl;
  no_parent = refl;
}

ip-IsIndex : IsIndex model (create_index (pos 0) 0 1)
unfolding row row_in index_from
ip-IsIndex = (λ e. ground (arith, e), refl, refl)

parent-index_example :
    (parent model (create_index (pos 0) 0 2) ≡ some (create_index (pos 0) 0 1))
    × IsIndex model (create_index (pos 0) 0 2)
unfolding index child item_of
parent-index_example =
    parent-index model tree-Built model-HasRoot (create_index (pos 0) 0 1) 0 2 ip-IsIndex refl

Built-Links_example : Links tree
Built-Links_example = Built-Links tree-Built

abbrev two_levels : Items
two_levels =
    more (item (qs "ip") (more (item (qs "ttl") last) last)) (more (item (qs "tcp") last) last)

show_tree-read_below_example :
    (shown : TreeModel) × (show_tree new_tree_model (item (qs "root") two_levels) ≡ some shown)
    × (read_below 4 shown invalid ≡ some two_levels)
    × HasRoot shown
    × Owns shown
unfolding levels
show_tree-read_below_example =
    show_tree-read_below new_tree_model new_tree_model-Owns (qs "root") two_levels 4 (omega arith)

show_all-clear_example :
    (cleared : TreeModel) × ((show_all new_tree_model
          (item (qs "root") two_levels ∷ item (qs "root") last ∷ [])
        >>= clear)
      ≡ some cleared)
    × (cleared.root ≡ none)
    × AllFreed cleared.heap cleared.freed
show_all-clear_example = show_all-clear (item (qs "root") two_levels ∷ item (qs "root") last ∷ [])
