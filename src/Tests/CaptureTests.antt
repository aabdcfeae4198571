-- ===== src/Tests/CaptureTests.antt =====
-- The sort buttons at concrete rows, with insertion sort for std::sort.
use mini_wireshark.Base.{ℕ, ◌≡◌, refl, List, [], ◌∷◌, some, arith, true, false}
use mini_wireshark.Qt.{qs, QString}
use mini_wireshark.Packet.Rows.{StPkt}
use mini_wireshark.Base.{◌>>=◌}
use mini_wireshark.Capture.Model.{Capture}
use mini_wireshark.Capture.Notices.{Action, append, by_num, by_src, run, watch, watch-run}
use mini_wireshark.Capture.Sorts.{sort_num, sort_src, sort_dst, sort_len}
use mini_wireshark.Capture.Address.{address, dotted}
use mini_wireshark.Capture.Sorted.{
  Sorts, sort_num-Sorts, sort_len-Sorts, sort_src-Sorts, sort_dst-Sorts,
}
use mini_wireshark.Tests.Sample.{sample, sample-AddressLaws, inet_ntoa}
use mini_wireshark.Tests.InsertionSort.{insertion_sort, insertion_sort-SortLaws}

abbrev row_at : ℕ → ℕ → QString → StPkt
row_at num host proto = record {
  num = num;
  src = inet_ntoa (dotted host);
  dst = inet_ntoa (dotted 1);
  proto = proto;
  len = 60;
  info = [];
}

abbrev three_rows : Capture
three_rows = record {
  vec = row_at 0 700 (qs "UDP") ∷ row_at 1 9 (qs "TCP") ∷ row_at 2 80 (qs "ICMP") ∷ [];
  num_flag = false;
  src_flag = true;
  dst_flag = false;
  proto_flag = false;
  len_flag = false;
  proto_num = 0;
}

sort_num-Sorts_example :
    Sorts
      (sort_num insertion_sort three_rows)
      three_rows
      false
      (λ r. r.num)
      (λ vec. record three_rows { vec = vec; num_flag = true })
sort_num-Sorts_example = sort_num-Sorts insertion_sort insertion_sort-SortLaws three_rows

sort_len-Sorts_example :
    Sorts
      (sort_len insertion_sort three_rows)
      three_rows
      true
      (λ r. r.len)
      (λ vec. record three_rows { vec = vec; len_flag = true })
sort_len-Sorts_example = sort_len-Sorts insertion_sort insertion_sort-SortLaws three_rows

sort_src-Sorts_example :
    Sorts
      (sort_src sample insertion_sort three_rows)
      three_rows
      true
      (λ r. address sample r.src)
      (λ vec. record three_rows { vec = vec; src_flag = false })
sort_src-Sorts_example =
    sort_src-Sorts insertion_sort insertion_sort-SortLaws sample sample-AddressLaws three_rows
      ((700, omega arith, refl), ((9, omega arith, refl), ((80, omega arith, refl), tt)))

sort_dst-Sorts_example :
    Sorts
      (sort_dst sample insertion_sort three_rows)
      three_rows
      false
      (λ r. address sample r.dst)
      (λ vec. record three_rows { vec = vec; dst_flag = true })
sort_dst-Sorts_example =
    sort_dst-Sorts insertion_sort insertion_sort-SortLaws sample sample-AddressLaws three_rows
      ((1, omega arith, refl), ((1, omega arith, refl), ((1, omega arith, refl), tt)))

abbrev clicks : List Action
clicks = by_src ∷ append (row_at 3 5 (qs "TCP")) ∷ by_num ∷ append (row_at 4 6 (qs "UDP")) ∷ []

watch-run_example :
    watch sample insertion_sort three_rows three_rows.vec clicks
    ≡ (run sample insertion_sort three_rows clicks >>= λ end. some (end, end.vec))
watch-run_example = watch-run sample insertion_sort three_rows clicks
