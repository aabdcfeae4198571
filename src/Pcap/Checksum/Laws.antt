-- ===== src/Pcap/Checksum/Laws.antt =====
-- The checksum against arithmetic modulo 2 ^ 16 - 1.
use mini_wireshark.Base.{
  ℕ, zero, suc, ◌+◌, ◌-◌, ◌*◌, ◌/◌, ◌%◌, ◌^◌, ◌≤◌, ◌<◌, ◌≡◌, ◌↔◌, some, arith, length, ◌==◌,
  if◌then◌else◌, ap,
}
use native.Mathlib.Nat.{add_assoc, add-zero, zero-add}
use mini_wireshark.Packet.Memory.{Bytes, AreBytes, byte-lt, be16, read8-some}
use mini_wireshark.Pcap.Checksum.{
  word_at, sum_loop, fold_carry, complement, carry_fuel, compute_ip_checksum,
}

-- The sum of n 16-bit words in network order from offset o on.
unfoldable pub words_sum : Bytes → ℕ → ℕ → ℕ
words_sum p o zero = 0
words_sum p o (suc n) = be16 p o + words_sum p (o + 2) n

-- One's complement addition carries around: the value between 0 and 65535 that a sum folds to.
unfoldable pub ones_fold : ℕ → ℕ
ones_fold x = if x == 0 then 0 else (x - 1) % 65535 + 1

module _ (p : Bytes) (bytes : AreBytes p) where
  word_at-some : (i : ℕ) → i + 2 ≤ length p → word_at p i ≡ some (be16 p i)
  unfolding word_at be16
  word_at-some i h =
      rw (read8-some p i (omega arith), read8-some p (i + 1) (omega arith))
        (ap some (omega (arith, byte-lt p i bytes, byte-lt p (i + 1) bytes)))

  be16-lt : (i : ℕ) → be16 p i < 65536
  unfolding be16
  be16-lt i = omega (arith, byte-lt p i bytes, byte-lt p (i + 1) bytes)

  pub words_sum-le : (o n : ℕ) → words_sum p o n ≤ n * 65535
  unfolding words_sum be16
  words_sum-le o zero = omega arith
  words_sum-le o (suc n) =
      omega (arith, words_sum-le (o + 2) n, byte-lt p o bytes, byte-lt p (o + 1) bytes)

  -- The loop never wraps: a header has at most 30 words.
  sum_loop-some :
      (o n sum : ℕ)
      → o + n * 2 ≤ length p
      → sum + n * 65535 < 2 ^ 32
      → sum_loop p o n sum ≡ some (sum + words_sum p o n)
  unfolding sum_loop words_sum
  sum_loop-some o zero sum h small = rw (add-zero sum)
  sum_loop-some o (suc n) sum h small =
      let narrow : be16 p o < 65536 = be16-lt o in
      let no_wrap : (sum + be16 p o) % 2 ^ 32 ≡ sum + be16 p o = omega arith in
      rw
        (
          word_at-some o (omega arith),
          no_wrap,
          sum_loop-some (o + 2) n (sum + be16 p o) (omega arith) (omega arith),
        )
        (ap some (add_assoc sum (be16 p o) (words_sum p (o + 2) n)))

fold_carry-some : (sum : ℕ) → sum < 2 ^ 32 → fold_carry carry_fuel sum ≡ some (ones_fold sum)
unfolding fold_carry ones_fold
fold_carry-some sum small = ground arith

ones_fold-le : (x : ℕ) → ones_fold x ≤ 65535
unfolding ones_fold
ones_fold-le x = ground arith

ones_fold-full_iff : (x : ℕ) → (65535 - ones_fold x ≡ 0) ↔ ((0 < x) × (x % 65535 ≡ 0))
unfolding ones_fold
ones_fold-full_iff x = ground arith

module _ (p : Bytes) (o n : ℕ) (bytes : AreBytes p) (fits : o + n * 2 ≤ length p)
    (header : n ≤ 30) where
  -- The checksum of a header of n words, at most 30, within the buffer is the one's complement of
  -- their one's complement sum: both loops end, and the 32-bit sum does not wrap.
  pub compute_ip_checksum-ones :
      compute_ip_checksum p o (n * 2) ≡ some (65535 - ones_fold (words_sum p o n))
  unfolding compute_ip_checksum complement
  compute_ip_checksum-ones =
      let rounds : (n * 2 + 1) / 2 ≡ n = omega arith in
      let low : ones_fold (words_sum p o n) % 65536 ≡ ones_fold (words_sum p o n) =
        omega (arith, ones_fold-le (words_sum p o n)) in
      rw (
        rounds,
        sum_loop-some p bytes o n 0 fits (omega arith),
        zero-add (words_sum p o n),
        fold_carry-some (words_sum p o n) (omega (arith, words_sum-le p bytes o n)),
        low,
      )

  -- The code calls a header of n words, at most 30, within the buffer good exactly when its words,
  -- not all zero, add up to a multiple of 2 ^ 16 - 1.
  pub compute_ip_checksum-zero_iff :
      (compute_ip_checksum p o (n * 2) ≡ some 0)
      ↔ ((0 < words_sum p o n) × (words_sum p o n % 65535 ≡ 0))
  compute_ip_checksum-zero_iff = rw compute_ip_checksum-ones (
    (λ good. (ones_fold-full_iff (words_sum p o n)).0 (cc)),
    λ sum. ap some ((ones_fold-full_iff (words_sum p o n)).1 sum),
  )
