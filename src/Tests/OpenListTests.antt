-- ===== src/Tests/OpenListTests.antt =====
-- The list of opened files at concrete inputs.
use mathlib.Core.List.{Perm, Nodup, not-mem-nil}
use mathlib.Core.List.Pairwise
use mini_wireshark.Base.{true, ◌≡◌, refl, false, List, [], ◌∷◌, some}
use mini_wireshark.Qt.{QString, qs}
use mini_wireshark.OpenList.{new_open_list, empty_list, add_db}
use mini_wireshark.OpenList.Table.{remember}
use mini_wireshark.OpenList.Laws.{insert, select, selected, Inserted, Shows, add_db-Shows}
use mini_wireshark.OpenList.Session.{AllTexts, add_all, add_all-remember, new_open_list_again}
use mini_wireshark.Tests.SampleDatabase.{File, sample_database, sample_rows, Open, add-Nodup}
use mini_wireshark.Tests.SampleTable.{sample-TableLaws, sample-IsWorking}

-- A file that holds one path; two files are opened, one of them is known.
abbrev one_path : File
one_path = record {
  table = some (
    qs "a.pcap" ∷ [],
    add-Nodup (qs "a.pcap") [] (λ there. absurd (not-mem-nil there)) Pairwise.nil,
  );
  is_open = false;
}

abbrev opened_files : List QString
opened_files = qs "b.pcap" ∷ qs "a.pcap" ∷ []

opened_files-AllTexts : AllTexts opened_files
unfolding qs
opened_files-AllTexts = (λ h. cc, (λ h. cc, tt))

add_all-remember_example :
    let (o, w') = new_open_list sample_database one_path in
    Perm
      (add_all sample_database o w' opened_files).0.vec
      (remember (qs "a.pcap" ∷ []) opened_files)
    × Nodup (add_all sample_database o w' opened_files).0.vec
add_all-remember_example =
    add_all-remember sample_database sample_rows Open sample-TableLaws sample-IsWorking one_path
      opened_files opened_files-AllTexts

new_open_list_again_example :
    let (o, w') = new_open_list sample_database one_path in
    let (o', w'') = add_all sample_database o w' opened_files in
    Perm (new_open_list sample_database w'').0.vec o'.vec
new_open_list_again_example =
    new_open_list_again sample_database sample_rows Open sample-TableLaws sample-IsWorking one_path
      opened_files opened_files-AllTexts

abbrev ready_path : File
ready_path = record one_path { is_open = true }

add_db-Shows_example :
    (ys : List QString) × (sample_rows
        (add_db sample_database empty_list ready_path (qs "b.pcap")).1
      ≡ some ys)
    × Inserted
        (insert sample_database ready_path (qs "b.pcap")).1.ok
        (qs "b.pcap")
        (qs "a.pcap" ∷ [])
        ys
    × Shows
        (selected sample_database (insert sample_database ready_path (qs "b.pcap")).0)
        (select sample_database (insert sample_database ready_path (qs "b.pcap")).0)
        empty_list
        (add_db sample_database empty_list ready_path (qs "b.pcap")).0
        ys
add_db-Shows_example =
    add_db-Shows sample_database sample_rows sample-TableLaws empty_list ready_path (qs "b.pcap")
      (qs "a.pcap" ∷ []) refl
