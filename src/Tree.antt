-- ===== src/Tree.antt =====
-- TreeItem and TreeModel: the nodes of the header tree, on a heap, and the item model over them.
pub mod Heap
pub mod Model
pub mod Delete
pub mod Links
pub mod Walk
pub mod Grow
pub mod View
pub mod Owner
pub mod Shown
