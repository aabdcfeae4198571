-- ===== src/Qt/ListModel.antt =====
-- What the list models take of Qt: QModelIndex and QVariant.
use mini_wireshark.Base.{ℕ, Bool, true, false}
use mini_wireshark.Qt.{QString}

-- A QModelIndex of a list: invalid, or a row.
pub data ModelIndex : Type 0 where
  invalid : ModelIndex
  at_row : ℕ → ModelIndex

abbrev pub is_valid : ModelIndex → Bool
is_valid invalid = false
is_valid (at_row i) = true

-- A QVariant: null, an int or a text.
pub data Variant : Type 0 where
  null : Variant
  int : ℕ → Variant
  text : QString → Variant
