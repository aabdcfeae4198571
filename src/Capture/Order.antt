-- ===== src/Capture/Order.antt =====
-- What std::sort asks of a comparator, a strict weak order, and what it gives.
use mathlib.Core.List.{Perm, Pairwise}
use mini_wireshark.Base.{
  ℕ, ◌≤◌, ◌≡◌, Bool, true, false, List, [], ◌∷◌, some, arith, ltb, if◌then◌else◌,
}
use mini_wireshark.Packet.Rows.{StPkt}
use mini_wireshark.Capture.Sorts.{Less, StdSort}

-- Every row of a list.
abbrev pub All : (StPkt → Type 0) → List StPkt → Type 0
All P [] = Unit
All P (x ∷ xs) = P x × All P xs

pub record IsStrictWeak (lt : StPkt → StPkt → Bool) : Type 0 where
  pub irrefl : (a : StPkt) → lt a a ≡ false
  pub trans : (a b c : StPkt) → lt a b ≡ true → lt b c ≡ true → lt a c ≡ true
  pub incomparable : (a b c : StPkt) → lt a b ≡ false → lt b c ≡ false → lt a c ≡ false

-- The C++ standard's contract: if the comparator yields, on the rows of the list, a strict weak
-- order, then std::sort ends, with a permutation of which no row stands behind a greater one.
pub record SortLaws (sort : StdSort) : Type 1 where
  pub sorts :
      (less : Less) (lt : StPkt → StPkt → Bool) (P : StPkt → Type 0) (xs : List StPkt)
      → IsStrictWeak lt
      → All P xs
      → ((a b : StPkt) → P a → P b → less a b ≡ some (lt a b))
      → (ys : List StPkt) × (sort less xs ≡ some ys)
        × Perm ys xs
        × Pairwise (λ a b. lt b a ≡ false) ys

-- A number as key, upwards or downwards.
abbrev pub by_key : Bool → (StPkt → ℕ) → StPkt → StPkt → Bool
by_key up key a b = if up then ltb (key a) (key b) else ltb (key b) (key a)

pub by_key-IsStrictWeak : (up : Bool) (key : StPkt → ℕ) → IsStrictWeak (by_key up key)
by_key-IsStrictWeak true key = record {
  irrefl = λ a. ground arith;
  trans = λ a b c. ground arith;
  incomparable = λ a b c. ground arith;
}
by_key-IsStrictWeak false key = record {
  irrefl = λ a. ground arith;
  trans = λ a b c. ground arith;
  incomparable = λ a b c. ground arith;
}

-- Rows in the order of a key.
abbrev pub InOrder : Bool → (StPkt → ℕ) → StPkt → StPkt → Type 0
InOrder true key a b = key a ≤ key b
InOrder false key a b = key b ≤ key a
