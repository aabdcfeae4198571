-- ===== src/Capture/Sorted.antt =====
-- What the sort buttons do to the rows: a permutation in the order of the column, and the direction
-- of the next click.
use mathlib.Core.List.{Perm, Pairwise}
use mathlib.Core.List.Pairwise
use mini_wireshark.Base.{
  ℕ, ◌<◌, ◌^◌, ◌≡◌, refl, Bool, true, false, not, List, [], ◌∷◌, Option, some, arith, ltb,
  if◌then◌else◌,
}
use mini_wireshark.Qt.{QString, Qt}
use mini_wireshark.Packet.Rows.{StPkt}
use mini_wireshark.Capture.Model.{Capture}
use mini_wireshark.Capture.Sorts.{
  Less, StdSort, less_num, sort_num, less_addr, sort_src, sort_dst, get_proto_num, less_len,
  sort_len,
}
use mini_wireshark.Capture.Order.{All, SortLaws, by_key, by_key-IsStrictWeak, InOrder}
use mini_wireshark.Capture.Address.{
  dotted, AddressLaws, address, address-inet_ntoa, less_addr-value,
}

-- The outcome of a click: the rows permuted into the order of a key, the rest as `next` says.
abbrev pub Sorts : Option Capture → Capture → Bool → (StPkt → ℕ) → (List StPkt → Capture) → Type 0
Sorts r c up key next =
    (vec : List StPkt) × (r ≡ some (next vec)) × Perm vec c.vec × Pairwise (InOrder up key) vec

in_order :
    (up : Bool) (key : StPkt → ℕ) (a b : StPkt) → by_key up key b a ≡ false → InOrder up key a b
in_order true key a b h = ground arith
in_order false key a b h = ground arith

All-rows : (xs : List StPkt) → All (λ _. Unit) xs
All-rows [] = tt
All-rows (x ∷ xs) = (tt, All-rows xs)

module _ (sort : StdSort) (laws : SortLaws sort) where
  -- std::sort with a comparator by key, which is defined on the rows at hand.
  sort_by_key :
      (less : Less) (up : Bool) (key : StPkt → ℕ) (P : StPkt → Type 0) (xs : List StPkt)
      → All P xs
      → ((a b : StPkt) → P a → P b → less a b ≡ some (by_key up key a b))
      → (ys : List StPkt) × (sort less xs ≡ some ys) × Perm ys xs × Pairwise (InOrder up key) ys
  sort_by_key less up key P xs all agrees =
      let (ys, done, perm, sorted) =
        laws.sorts less (by_key up key) P xs (by_key-IsStrictWeak up key) all agrees in
      (ys, done, perm, Pairwise.imp (in_order up key) sorted)

  -- With std::sort as the standard says, a click on the number column permutes the rows into the
  -- order of their numbers, downwards for a flag that is not set, and flips the flag.
  pub sort_num-Sorts :
      (c : Capture)
      → Sorts
          (sort_num sort c)
          c
          c.num_flag
          (λ r. r.num)
          (λ vec. record c { vec = vec; num_flag = not c.num_flag })
  unfolding sort_num less_num
  sort_num-Sorts c =
      let (vec, done, perm, sorted) =
        sort_by_key (less_num c.num_flag) c.num_flag (λ r. r.num) (λ _. Unit) c.vec (All-rows c.vec)
          (λ a b _ _. refl) in
      (vec, rw done, perm, sorted)

  flip_key :
      (flag : Bool) (a b : StPkt) → less_len flag a b ≡ some (by_key (not flag) (λ r. r.len) a b)
  unfolding less_len
  flip_key true a b = refl
  flip_key false a b = refl

  -- With std::sort as the standard says, a click on the length column permutes the rows into the
  -- order of their lengths, upwards for a flag that is not set, and flips the flag.
  pub sort_len-Sorts :
      (c : Capture)
      → Sorts
          (sort_len sort c)
          c
          (not c.len_flag)
          (λ r. r.len)
          (λ vec. record c { vec = vec; len_flag = not c.len_flag })
  unfolding sort_len
  sort_len-Sorts c =
      let (vec, done, perm, sorted) =
        sort_by_key (less_len c.len_flag) (not c.len_flag) (λ r. r.len) (λ _. Unit) c.vec
          (All-rows c.vec) (λ a b _ _. flip_key c.len_flag a b) in
      (vec, rw done, perm, sorted)

-- The rows of protocol n stand first.
abbrev pub First : ℕ → StPkt → StPkt → Type 0
First n a b = get_proto_num b.proto ≡ n → get_proto_num a.proto ≡ n

module _ (sort : StdSort) (laws : SortLaws sort) where
  module _ (q : Qt) (texts : AddressLaws q) where
    -- A text is that of an address, as update_md's callers make it by inet_ntoa.
    abbrev pub IsAddress : QString → Type 0
    IsAddress s = (n : ℕ) × (n < 2 ^ 32) × (s ≡ q.inet_ntoa (dotted n))

    less_addr-key :
        (up : Bool) (s t : QString)
        → IsAddress s
        → IsAddress t
        → less_addr q up s t
          ≡ some (if up then ltb (address q s) (address q t) else ltb (address q t) (address q s))
    less_addr-key up s t (m, hm, es) (n, hn, et) = rw (
      es,
      et,
      less_addr-value q texts up m n hm hn,
      address-inet_ntoa q texts m hm,
      address-inet_ntoa q texts n hn,
    )

    -- With std::sort as the standard says, a click on the source column permutes rows whose sources
    -- are IPv4 addresses into the order of their numeric values, downwards for a flag that is not
    -- set, with no index out of range, and flips the flag.
    pub sort_src-Sorts :
        (c : Capture)
        → All (λ r. IsAddress r.src) c.vec
        → Sorts
            (sort_src q sort c)
            c
            c.src_flag
            (λ r. address q r.src)
            (λ vec. record c { vec = vec; src_flag = not c.src_flag })
    unfolding sort_src
    sort_src-Sorts c all =
        let (vec, done, perm, sorted) =
          sort_by_key sort laws (λ a b. less_addr q c.src_flag a.src b.src) c.src_flag
            (λ r. address q r.src) (λ r. IsAddress r.src) c.vec all
            (λ a b. less_addr-key c.src_flag a.src b.src) in
        (vec, rw done, perm, sorted)

    -- With std::sort as the standard says, a click on the destination column permutes rows whose
    -- destinations are IPv4 addresses into the order of their numeric values, downwards for a flag
    -- that is not set, with no index out of range, and flips the flag.
    pub sort_dst-Sorts :
        (c : Capture)
        → All (λ r. IsAddress r.dst) c.vec
        → Sorts
            (sort_dst q sort c)
            c
            c.dst_flag
            (λ r. address q r.dst)
            (λ vec. record c { vec = vec; dst_flag = not c.dst_flag })
    unfolding sort_dst
    sort_dst-Sorts c all =
        let (vec, done, perm, sorted) =
          sort_by_key sort laws (λ a b. less_addr q c.dst_flag a.dst b.dst) c.dst_flag
            (λ r. address q r.dst) (λ r. IsAddress r.dst) c.vec all
            (λ a b. less_addr-key c.dst_flag a.dst b.dst) in
        (vec, rw done, perm, sorted)
