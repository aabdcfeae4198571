-- ===== src/OpenList/Table.antt =====
-- What SQLite and Qt's SQLite driver promise of the statements on the table open_list, and the set
-- of paths that the table is.
use mathlib.Core.List.{Perm, Mem, Nodup, List-discrete, insert}
use native.Mathlib.Decide.{ℕ_discrete}
use mini_wireshark.Base.{◌≡◌, ◌≢◌, Bool, true, false, List, [], ◌∷◌, ◌++◌, map, Option, none, some}
use mini_wireshark.Qt.{QString}
use mini_wireshark.OpenList.{Database, Columns, create_sql, insert_sql, select_sql}

abbrev pub or_empty : Option (List QString) → List QString
or_empty none = []
or_empty (some xs) = xs

abbrev pub single : QString → Columns
single path = path ∷ []

-- The paths that the database file holds; none before the table exists.
abbrev pub Rows : Database → Type 0
Rows d = d.World → Option (List QString)

-- Whatever may fail: SQLite's statements are atomic, keep the primary key, and answer what the
-- table holds, in an order of SQLite's own; an error between two rows ends next() like the end.
pub record TableLaws (d : Database) (rows : Rows d) : Type 0 where
  pub distinct : (w : d.World) (xs : List QString) → rows w ≡ some xs → Nodup xs
  pub path_keeps : (w : d.World) (path : QString) → rows (d.make_path w path) ≡ rows w
  pub open_keeps : (w : d.World) (path : QString) → rows (d.open_db w path).0 ≡ rows w
  pub unprepared :
      (w : d.World) (sql : QString) (bound : List QString) → (d.exec w false sql bound).1.ok ≡ false
  pub failed :
      (w : d.World) (prepared : Bool) (sql : QString) (bound : List QString)
      → (d.exec w prepared sql bound).1.ok ≡ false
      → rows (d.exec w prepared sql bound).0 ≡ rows w
  pub created :
      (w : d.World)
      → (d.exec w true create_sql []).1.ok ≡ true
      → (rows w ≡ none) × (rows (d.exec w true create_sql []).0 ≡ some [])
  pub inserted :
      (w : d.World) (path : QString) (xs : List QString)
      → rows w ≡ some xs
      → (d.exec w true insert_sql (path ∷ [])).1.ok ≡ true
      → (¬ Mem path xs)
        × (ys : List QString) × (rows (d.exec w true insert_sql (path ∷ [])).0 ≡ some ys)
        × Perm ys (path ∷ xs)
  pub selected :
      (w : d.World) (xs : List QString)
      → rows w ≡ some xs
      → (d.exec w true select_sql []).1.ok ≡ true
      → (rows (d.exec w true select_sql []).0 ≡ some xs)
        × (ys missed : List QString) × ((d.exec w true select_sql []).1.rows ≡ map single ys)
        × Perm (ys ++ missed) xs

-- Where nothing else goes wrong (the file opens, the disk takes what is written) a statement fails
-- only for what it says. The empty text is left out: a null QString is bound as NULL.
pub record IsWorking (d : Database) (rows : Rows d) (Ready : d.World → Type 0) : Type 0 where
  pub opens : (w : d.World) (path : QString) → Ready (d.open_db w path).0
  pub stays :
      (w : d.World) (prepared : Bool) (sql : QString) (bound : List QString)
      → Ready w
      → Ready (d.exec w prepared sql bound).0
  pub creates :
      (w : d.World)
      → Ready w
      → rows w ≡ none
      → (d.prepare w create_sql ≡ true) × ((d.exec w true create_sql []).1.ok ≡ true)
  pub inserts :
      (w : d.World) (path : QString) (xs : List QString)
      → Ready w
      → rows w ≡ some xs
      → path ≢ []
      → ¬ Mem path xs
      → (d.prepare w insert_sql ≡ true) × ((d.exec w true insert_sql (path ∷ [])).1.ok ≡ true)
  pub selects :
      (w : d.World) (xs : List QString)
      → Ready w
      → rows w ≡ some xs
      → (d.prepare w select_sql ≡ true)
        × ((d.exec w true select_sql []).1.ok ≡ true)
        × (ys : List QString) × ((d.exec w true select_sql []).1.rows ≡ map single ys)
        × Perm ys xs

abbrev pub same_text : Discrete QString
same_text = List-discrete ℕ_discrete

-- The abstract list: a set of paths, to which each path is added.
abbrev pub remember : List QString → List QString → List QString
remember xs [] = xs
remember xs (path ∷ paths) = remember (insert same_text path xs) paths
