-- ===== src/Tests/InsertionSort.antt =====
-- A sort that meets the contract of std::sort.
use mathlib.Core.List.{Perm, Pairwise, Mem, Pairwise-singleton, forall_mem-cons}
use mathlib.Core.List.Perm
use mathlib.Core.Bool.{Bool-set}
use mini_wireshark.Base.{
  ◌≡◌, refl, Bool, true, false, List, [], ◌∷◌, Option, some, if◌then◌else◌, ◌>>=◌, Bool-cases, inl,
  inr,
}
use mini_wireshark.Packet.Rows.{StPkt}
use mini_wireshark.Capture.Sorts.{Less, StdSort}
use mini_wireshark.Capture.Order.{All, IsStrictWeak, SortLaws}

unfoldable pub insert : Less → StPkt → List StPkt → Option (List StPkt)
insert less x [] = some (x ∷ [])
insert less x (y ∷ ys) =
    let rest : Option (List StPkt) = (do zs ← insert less x ys; some (y ∷ zs)) in
    do before ← less x y; if before then some (x ∷ y ∷ ys) else rest

unfoldable pub insertion_sort : StdSort
insertion_sort less [] = some []
insertion_sort less (x ∷ xs) = do ys ← insertion_sort less xs; insert less x ys

module _ (lt : StPkt → StPkt → Bool) (weak : IsStrictWeak lt) where
  abbrev Below : StPkt → StPkt → Type 0
  Below a b = lt b a ≡ false

  place : StPkt → List StPkt → List StPkt
  place x [] = x ∷ []
  place x (y ∷ ys) = if lt x y then x ∷ y ∷ ys else y ∷ place x ys

  place-perm : (x : StPkt) (ys : List StPkt) → Perm (place x ys) (x ∷ ys)
  unfolding place
  place-perm x [] = Perm.refl (x ∷ [])
  place-perm x (y ∷ ys) = elim (Bool-cases (lt x y)) [
    | inl t ↦ rw t (Perm.refl (x ∷ y ∷ ys))
    | inr f ↦ rw f (Perm.trans (Perm.cons y (place-perm x ys)) (Perm.swap x y ys))
  ]

  -- An order has no two rows each before the other.
  asymm : (a b : StPkt) → lt a b ≡ true → lt b a ≡ false
  asymm a b t = elim (Bool-cases (lt b a)) [
    | inl u ↦ absurd (cc (weak.trans a b a t u, weak.irrefl a))
    | inr f ↦ f
  ]

  Below-all :
      (x y : StPkt) (ys : List StPkt)
      → Below x y
      → Pairwise Below (y ∷ ys)
      → (z : StPkt) → Mem z (y ∷ ys)
      → Below x z
  Below-all x y ys h (Pairwise.cons below _) =
      (forall_mem-cons (λ z. Bool-set _ _)).1 (h, λ z m. weak.incomparable z y x (below z m) h)

  place-Pairwise : (x : StPkt) {ys : List StPkt} → Pairwise Below ys → Pairwise Below (place x ys)
  unfolding place
  place-Pairwise x Pairwise.nil = Pairwise-singleton _ x
  place-Pairwise x (Pairwise.cons {a = y} {l = ys} below s) = elim (Bool-cases (lt x y)) [
    | inl t ↦
        let whole = Pairwise.cons below s in
        rw t (Pairwise.cons (Below-all x y ys (asymm x y t) whole) whole)
    | inr f ↦ rw f (
        Pairwise.cons
          (λ z m.
            (forall_mem-cons (λ z. Bool-set _ _)).1 (f, below) z
              ((Perm.mem_iff (place-perm x ys)).0 m))
          (place-Pairwise x s))
  ]

  place_all : List StPkt → List StPkt
  place_all [] = []
  place_all (x ∷ xs) = place x (place_all xs)

  place_all-perm : (xs : List StPkt) → Perm (place_all xs) xs
  unfolding place_all
  place_all-perm [] = Perm.refl []
  place_all-perm (x ∷ xs) =
      Perm.trans (place-perm x (place_all xs)) (Perm.cons x (place_all-perm xs))

  place_all-Pairwise : (xs : List StPkt) → Pairwise Below (place_all xs)
  unfolding place_all
  place_all-Pairwise [] = Pairwise.nil
  place_all-Pairwise (x ∷ xs) = place-Pairwise x (place_all-Pairwise xs)

  module _ (less : Less) (P : StPkt → Type 0)
      (agrees : (a b : StPkt) → P a → P b → less a b ≡ some (lt a b)) where
    place-All : (x : StPkt) (ys : List StPkt) → P x → All P ys → All P (place x ys)
    unfolding place
    place-All x [] px all = (px, tt)
    place-All x (y ∷ ys) px all = elim (Bool-cases (lt x y)) [
      | inl t ↦ rw t (px, all)
      | inr f ↦ rw f (all.0, place-All x ys px all.1)
    ]

    place_all-All : (xs : List StPkt) → All P xs → All P (place_all xs)
    unfolding place_all
    place_all-All [] all = tt
    place_all-All (x ∷ xs) all = place-All x (place_all xs) all.0 (place_all-All xs all.1)

    insert-place :
        (x : StPkt) (ys : List StPkt) → P x → All P ys → insert less x ys ≡ some (place x ys)
    unfolding insert place
    insert-place x [] px all = refl
    insert-place x (y ∷ ys) px all = elim (Bool-cases (lt x y)) [
      | inl t ↦ rw (agrees x y px all.0, t)
      | inr f ↦ rw (agrees x y px all.0, f, insert-place x ys px all.1)
    ]

    insertion_sort-place_all :
        (xs : List StPkt) → All P xs → insertion_sort less xs ≡ some (place_all xs)
    unfolding insertion_sort place_all
    insertion_sort-place_all [] all = refl
    insertion_sort-place_all (x ∷ xs) all =
        rw (insertion_sort-place_all xs all.1)
          (insert-place x (place_all xs) all.0 (place_all-All xs all.1))

pub insertion_sort-SortLaws : SortLaws insertion_sort
insertion_sort-SortLaws = record {
  sorts = λ less lt P xs weak all agrees. (
    place_all lt weak xs,
    insertion_sort-place_all lt weak less P agrees xs all,
    place_all-perm lt weak xs,
    place_all-Pairwise lt weak xs,
  );
}
