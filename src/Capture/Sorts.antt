-- ===== src/Capture/Sorts.antt =====
-- Capture.cpp: the sort buttons. std::sort is a parameter; its comparators may fault, by an index
-- outside of a QStringList. `none` is a fault.
use mini_wireshark.Base.{
  ℕ, zero, suc, ◌+◌, ◌-◌, ◌%◌, Bool, false, ◌||◌, not, List, Option, some, ltb, if◌then◌else◌,
  get_elem?, ◌>>=◌,
}
use mini_wireshark.Base.Int.{ltb_ℤ}
use mini_wireshark.Qt.{QString, qs, eq_qs, Qt}
use mini_wireshark.Packet.Rows.{StPkt}
use mini_wireshark.Capture.Model.{Capture}

-- A comparator, and std::sort over a range with it.
abbrev pub Less : Type 0
Less = StPkt → StPkt → Option Bool

abbrev pub StdSort : Type 0
StdSort = Less → List StPkt → Option (List StPkt)

unfoldable pub less_num : Bool → Less
less_num flag a b = some (if flag then ltb a.num b.num else ltb b.num a.num)

-- The first click sorts downwards.
unfoldable pub sort_num : StdSort → Capture → Option Capture
sort_num sort c = do
  vec ← sort (less_num c.num_flag) c.vec
  some (record c { vec = vec; num_flag = not c.num_flag })

-- `for i < 4`: k rounds are left. The first parts that differ decide.
unfoldable pub compare_parts : Qt → Bool → List QString → List QString → ℕ → ℕ → Option Bool
compare_parts q flag xs ys i zero = some false
compare_parts q flag xs ys i (suc k) =
    let rest : Option Bool = compare_parts q flag xs ys (i + 1) k in
    do
      x ← get_elem? xs i
      y ← get_elem? ys i
      if ltb_ℤ (q.to_int x) (q.to_int y) || ltb_ℤ (q.to_int y) (q.to_int x)
          then some
              (if flag then ltb_ℤ (q.to_int x) (q.to_int y) else ltb_ℤ (q.to_int y) (q.to_int x))
          else rest

unfoldable pub less_addr : Qt → Bool → QString → QString → Option Bool
less_addr q flag s t = compare_parts q flag (q.split s b'.') (q.split t b'.') 0 4

-- enum TARGET; any other int is `other_target`.
pub data Target : Type 0 where
  src dst other_target : Target

unfoldable pub paser_and_sort : Qt → StdSort → Capture → Target → Option Capture
paser_and_sort q sort c src = do
  vec ← sort (λ a b. less_addr q c.src_flag a.src b.src) c.vec
  some (record c { vec = vec; src_flag = not c.src_flag })
paser_and_sort q sort c dst = do
  vec ← sort (λ a b. less_addr q c.dst_flag a.dst b.dst) c.vec
  some (record c { vec = vec; dst_flag = not c.dst_flag })
paser_and_sort q sort c other_target = some c

unfoldable pub sort_src : Qt → StdSort → Capture → Option Capture
unfolding paser_and_sort
sort_src q sort c = paser_and_sort q sort c src

unfoldable pub sort_dst : Qt → StdSort → Capture → Option Capture
unfolding paser_and_sort
sort_dst q sort c = paser_and_sort q sort c dst

unfoldable pub get_proto_num : QString → ℕ
get_proto_num s =
    if eq_qs s (qs "TCP")
    then 0
    else if eq_qs s (qs "UDP")
    then 1
    else if eq_qs s (qs "ICMP")
    then 2
    else 0

-- The rank of a protocol when the order begins with protocol `shift`.
unfoldable pub proto_rank : ℕ → QString → ℕ
proto_rank shift s = (get_proto_num s + 3 - shift) % 3

unfoldable pub less_proto : ℕ → Less
less_proto shift a b = some (ltb (proto_rank shift a.proto) (proto_rank shift b.proto))

-- Each click begins with the next protocol.
unfoldable pub sort_proto : StdSort → Capture → Option Capture
sort_proto sort c = do
  vec ← sort (less_proto ((c.proto_num + 1) % 3)) c.vec
  some (record c { vec = vec; proto_num = (c.proto_num + 1) % 3 })

unfoldable pub less_len : Bool → Less
less_len flag a b = some (if flag then ltb b.len a.len else ltb a.len b.len)

-- The first click sorts upwards.
unfoldable pub sort_len : StdSort → Capture → Option Capture
sort_len sort c = do
  vec ← sort (less_len c.len_flag) c.vec
  some (record c { vec = vec; len_flag = not c.len_flag })
