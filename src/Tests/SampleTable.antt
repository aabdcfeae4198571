-- ===== src/Tests/SampleTable.antt =====
-- The sample database meets the laws of the table, and works.
use mathlib.Core.List.{Mem, Nodup, dec_mem}
use mathlib.Core.List.Perm
use mini_wireshark.Base.{
  append-nil, ◌≡◌, refl, ◌∙◌, ap, Bool, true, false, List, [], ◌∷◌, map, Option, none, some,
  if◌then◌else◌, arith,
}
use mini_wireshark.Qt.{QString, qs, eq_qs}
use mini_wireshark.OpenList.{create_sql, insert_sql, select_sql}
use mini_wireshark.OpenList.Table.{TableLaws, IsWorking, single, same_text}
use mini_wireshark.Tests.SampleDatabase.{
  Table, File, Statement, create, insert, select, unknown, parse, refused, add_new, run, exec,
  paths_of, sample_database, sample_rows, Open,
}

parse_sql : (parse create_sql ≡ create) × (parse insert_sql ≡ insert) × (parse select_sql ≡ select)
unfolding parse qs eq_qs
parse_sql = (refl, refl, refl)

paths_of-Nodup : (t : Option Table) (xs : List QString) → paths_of t ≡ some xs → Nodup xs
paths_of-Nodup none xs holds = cc
paths_of-Nodup (some t) xs holds = let same : t.0 ≡ xs = cc in rw (← same) t.1

add_new-failed :
    (w : File) (path : QString) (t : Table) (known : Dec (Mem path t.0))
    → (add_new w path t known).1.ok ≡ false
    → (add_new w path t known).0 ≡ w
add_new-failed w path t (yes there) bad = refl
add_new-failed w path t (no new) bad = cc

run-failed :
    (s : Statement) (w : File) (t : Option Table) (bound : List QString)
    → (run s w t bound).1.ok ≡ false
    → (run s w t bound).0 ≡ w
run-failed create w none bound bad = cc
run-failed create w (some t) bound bad = refl
run-failed insert w none bound bad = refl
run-failed insert w (some t) [] bad = refl
run-failed insert w (some t) (path ∷ []) bad =
    add_new-failed w path t (dec_mem same_text path t.0) bad
run-failed insert w (some t) (path ∷ other ∷ more) bad = refl
run-failed select w none bound bad = refl
run-failed select w (some t) bound bad = refl
run-failed unknown w t bound bad = refl

exec-failed :
    (w : File) (prepared : Bool) (sql : QString) (bound : List QString)
    → (exec w prepared sql bound).1.ok ≡ false
    → sample_rows (exec w prepared sql bound).0 ≡ sample_rows w
exec-failed w prepared sql bound bad = ground (arith, run-failed (parse sql) w w.table bound)

run-created :
    (w : File) (t : Option Table)
    → (run create w t []).1.ok ≡ true
    → (paths_of t ≡ none) × (sample_rows (run create w t []).0 ≡ some [])
run-created w none good = (refl, refl)
run-created w (some t) good = cc

run-creates : (w : File) (t : Option Table) → paths_of t ≡ none → (run create w t []).1.ok ≡ true
run-creates w none missing = refl
run-creates w (some t) missing = cc

run-selected :
    (w : File) (t : Option Table) (xs : List QString)
    → w.table ≡ t
    → paths_of t ≡ some xs
    → (sample_rows (run select w t []).0 ≡ some xs)
      × ((run select w t []).1.ok ≡ true)
      × ((run select w t []).1.rows ≡ map single xs)
run-selected w none xs is holds = cc
run-selected w (some t) xs is holds = let same : t.0 ≡ xs = cc in (rw is holds, refl, rw same refl)

add_new-inserted :
    (w : File) (path : QString) (t : Table) (known : Dec (Mem path t.0))
    → (add_new w path t known).1.ok ≡ true
    → (¬ Mem path t.0) × (sample_rows (add_new w path t known).0 ≡ some (path ∷ t.0))
add_new-inserted w path t (yes there) good = cc
add_new-inserted w path t (no new) good = (new, refl)

add_new-works :
    (w : File) (path : QString) (t : Table) (known : Dec (Mem path t.0))
    → ¬ Mem path t.0
    → (add_new w path t known).1.ok ≡ true
add_new-works w path t (yes there) new = absurd (new there)
add_new-works w path t (no absent) new = refl

-- The table, with its paths.
find_table :
    (t : Option Table) (xs : List QString)
    → paths_of t ≡ some xs
    → (u : Table) × (t ≡ some u) × (u.0 ≡ xs)
find_table none xs holds = cc
find_table (some t) xs holds = (t, refl, cc)

add_new-open :
    (w : File) (path : QString) (t : Table) (known : Dec (Mem path t.0))
    → (add_new w path t known).0.is_open ≡ w.is_open
add_new-open w path t (yes there) = refl
add_new-open w path t (no new) = refl

run-open :
    (s : Statement) (w : File) (t : Option Table) (bound : List QString)
    → (run s w t bound).0.is_open ≡ w.is_open
run-open create w none bound = refl
run-open create w (some t) bound = refl
run-open insert w none bound = refl
run-open insert w (some t) [] = refl
run-open insert w (some t) (path ∷ []) = add_new-open w path t (dec_mem same_text path t.0)
run-open insert w (some t) (path ∷ other ∷ more) = refl
run-open select w none bound = refl
run-open select w (some t) bound = refl
run-open unknown w t bound = refl

exec-run :
    (w : File) (sql : QString) (s : Statement) (t : Option Table) (bound : List QString)
    → parse sql ≡ s
    → w.table ≡ t
    → w.is_open ≡ true
    → exec w true sql bound ≡ run s w t bound
exec-run w sql s t bound is there opened =
    ap (λ b. if b then run (parse sql) w w.table bound else refused w) opened
    ∙ ap (λ u. run u w w.table bound) is
    ∙ ap (λ u. run s w u bound) there

-- What succeeds, succeeds on an open file.
exec-ok :
    (w : File) (sql : QString) (bound : List QString)
    → (exec w true sql bound).1.ok ≡ true
    → w.is_open ≡ true
exec-ok w sql bound good = ground arith

pub sample-TableLaws : TableLaws sample_database sample_rows
sample-TableLaws = record {
  distinct = λ w xs holds. paths_of-Nodup w.table xs holds;
  path_keeps = λ w path. refl;
  open_keeps = λ w path. refl;
  unprepared = λ w sql bound. refl;
  failed = exec-failed;
  created = λ w good.
      let same =
        exec-run w create_sql create w.table [] parse_sql.0 refl (exec-ok w create_sql [] good) in
      rw same (run-created w w.table (rw same at good));
  inserted = λ w path xs holds good.
      let (t, is, paths) = find_table w.table xs holds in
      let opened = exec-ok w insert_sql (path ∷ []) good in
      let same = exec-run w insert_sql insert (some t) (path ∷ []) parse_sql.1 is opened in
      let (new, kept) = add_new-inserted w path t (dec_mem same_text path t.0) (rw same at good) in
      (rw (← paths) new, path ∷ t.0, rw same kept, rw paths Perm.rfl);
  selected = λ w xs holds good.
      let same =
        exec-run w select_sql select w.table [] parse_sql.2 refl (exec-ok w select_sql [] good) in
      let (kept, ok, rows) = run-selected w w.table xs refl holds in
      (rw same kept, xs, [], rw same rows, rw (append-nil xs) Perm.rfl);
}

pub sample-IsWorking : IsWorking sample_database sample_rows Open
sample-IsWorking = record {
  opens = λ w path. refl;
  stays = λ w prepared sql bound opened. ground (arith, run-open (parse sql) w w.table bound);
  creates = λ w opened missing. (
    opened,
    rw (exec-run w create_sql create w.table [] parse_sql.0 refl opened)
        (run-creates w w.table missing),
  );
  inserts = λ w path xs opened holds text new.
      let (t, is, paths) = find_table w.table xs holds in
      let absent : ¬ Mem path t.0 = rw paths new in
      let ok = add_new-works w path t (dec_mem same_text path t.0) absent in
      (opened, rw (exec-run w insert_sql insert (some t) (path ∷ []) parse_sql.1 is opened) ok);
  selects = λ w xs opened holds.
      let same = exec-run w select_sql select w.table [] parse_sql.2 refl opened in
      let (kept, ok, rows) = run-selected w w.table xs refl holds in
      (opened, rw same ok, xs, rw same rows, Perm.rfl);
}
