-- ===== src/Tests/SampleDatabase.antt =====
-- A database that meets the laws of the table: a file that holds paths, newest first.
use mathlib.Core.List.{Mem, Nodup, dec_mem}
use mathlib.Core.List.Pairwise
use mini_wireshark.Base.{
  ◌≡◌, Bool, true, false, ◌&&◌, List, [], ◌∷◌, map, Option, none, some, if◌then◌else◌,
}
use mini_wireshark.Qt.{QString, qs, eq_qs}
use mini_wireshark.OpenList.{Database, Answer, create_sql, insert_sql, select_sql}
use mini_wireshark.OpenList.Table.{Rows, single, same_text}

-- Paths, each once.
abbrev pub Table : Type 0
Table = (xs : List QString) × Nodup xs

pub record File : Type 0 where
  pub table : Option Table
  pub is_open : Bool

pub data Statement : Type 0 where
  create insert select unknown : Statement

unfoldable pub parse : QString → Statement
parse sql =
    if eq_qs sql create_sql
    then create
    else if eq_qs sql insert_sql
    then insert
    else if eq_qs sql select_sql
    then select
    else unknown

abbrev pub refused : File → File × Answer
refused w = (w, record { ok = false; rows = [] })

pub add-Nodup : (path : QString) (xs : List QString) → ¬ Mem path xs → Nodup xs → Nodup (path ∷ xs)
add-Nodup path xs new distinct = Pairwise.cons (λ x there same. new (rw same there)) distinct

-- The path is not in the table and not the empty text.
abbrev pub add_new : File → (path : QString) (t : Table) → Dec (Mem path t.0) → File × Answer
add_new w path t (yes there) = refused w
add_new w path t (no new) = (
  record w { table = some (path ∷ t.0, add-Nodup path t.0 new t.1) },
  record { ok = true; rows = [] },
)

abbrev pub run : Statement → File → Option Table → List QString → File × Answer
run create w none bound =
    (record w { table = some ([], Pairwise.nil) }, record { ok = true; rows = [] })
run insert w (some t) (path ∷ []) = add_new w path t (dec_mem same_text path t.0)
run select w (some t) bound = (w, record { ok = true; rows = map single t.0 })
run s w t bound = refused w

abbrev pub exec : File → Bool → QString → List QString → File × Answer
exec w prepared sql bound =
    if prepared && w.is_open then run (parse sql) w w.table bound else refused w

abbrev pub sample_database : Database
sample_database = record {
  World = File;
  data_location = qs "/data";
  make_path = λ w path. w;
  open_db = λ w path. (record w { is_open = true }, true);
  prepare = λ w sql. w.is_open;
  exec = exec;
}

abbrev pub paths_of : Option Table → Option (List QString)
paths_of none = none
paths_of (some t) = some t.0

abbrev pub sample_rows : Rows sample_database
sample_rows w = paths_of w.table

abbrev pub Open : File → Type 0
Open w = w.is_open ≡ true
