-- ===== src/OpenList/Session.antt =====
-- A session of the list over a database that works: start, the files that are opened, and the next
-- start.
use mathlib.Core.List.{Mem, Perm, Nodup, insert, dec_mem, insert_of_mem, insert_of_not-mem}
use mathlib.Core.List.Perm
use mini_wireshark.Base.{
  true, false, Bool, ◌≡◌, ◌≢◌, refl, ◌∙◌, inl, inr, true, Bool-cases, Option-cases, List, [], ◌∷◌,
  ◌++◌, some,
}
use mini_wireshark.Qt.{QString, qs}
use mini_wireshark.OpenList.{
  Database, OpenList, create_sql, insert_sql, select_sql, check_query_prepare, check_query_exec,
  update_vec, create_db_table, create_db_lite, init_vec, add_db, new_open_list,
}
use mini_wireshark.OpenList.Table.{Rows, same_text, TableLaws, IsWorking, or_empty, remember}
use mini_wireshark.OpenList.Laws.{collect-single, insert-Inserted, Inserted}

-- Every text but the empty one.
abbrev pub AllTexts : List QString → Type 0
AllTexts [] = Unit
AllTexts (path ∷ paths) = (path ≢ []) × AllTexts paths

-- A file is opened after another.
abbrev pub add_all : (d : Database) → OpenList → d.World → List QString → OpenList × d.World
add_all d o w [] = (o, w)
add_all d o w (path ∷ paths) = let (o', w') = add_db d o w path in add_all d o' w' paths

-- The list shows the table, which holds the paths xs.
pub record IsShown (d : Database) (rows : Rows d) (Ready : d.World → Type 0) (o : OpenList)
    (w : d.World) (xs : List QString) : Type 0 where
  pub ready : Ready w
  pub table : List QString
  pub holds : rows w ≡ some table
  pub is_set : Perm table xs
  pub shown : Perm o.vec table

module _ (d : Database) (rows : Rows d) (Ready : d.World → Type 0) (laws : TableLaws d rows)
    (works : IsWorking d rows Ready) where
  init_vec-IsShown :
      (o : OpenList) (w : d.World) (xs table : List QString)
      → Ready w
      → rows w ≡ some table
      → Perm table xs
      → IsShown d rows Ready (init_vec d o w).0 (init_vec d o w).1 xs
  unfolding init_vec check_query_prepare check_query_exec update_vec
  init_vec-IsShown o w xs table ready holds is_set =
      let (prepared, ok, ys, answer, order) = works.selects w table ready holds in
      let (same, _, _, _, _) = laws.selected w table holds ok in
      rw (prepared, ok, answer, collect-single [] ys)
        (record {
          ready = works.stays w true select_sql [] ready;
          table = table;
          holds = same;
          is_set = is_set;
          shown = order;
        })

  -- The statement has no IF NOT EXISTS: it fails on every later start, and the table stays.
  create-again :
      (w : d.World) (xs : List QString)
      → rows w ≡ some xs
      → rows (d.exec w true create_sql []).0 ≡ some xs
  create-again w xs there = elim (Bool-cases (d.exec w true create_sql []).1.ok) [
    | inl ok ↦ let missing = (laws.created w ok).0 in cc
    | inr bad ↦ laws.failed w true create_sql [] bad ∙ there
  ]

  create_db_table-rows :
      (w : d.World)
      → Ready w
      → Ready (create_db_table d w) × (rows (create_db_table d w) ≡ some (or_empty (rows w)))
  unfolding create_db_table check_query_prepare
  create_db_table-rows w ready = elim (Option-cases (rows w)) [
    | inl missing ↦
        let (prepared, ok) = works.creates w ready missing in
        rw (prepared, missing) (works.stays w true create_sql [] ready, (laws.created w ok).1)
    | inr (xs, there) ↦ elim (Bool-cases (d.prepare w create_sql)) [
      | inl prepared ↦
          rw prepared
            (works.stays w true create_sql [] ready, create-again w xs there ∙ rw there refl)
      | inr refused ↦ rw (refused, there) (ready, refl)
    ]
  ]

  -- The first start of the program, and every later one.
  start-IsShown :
      (w : d.World)
      → IsShown d rows Ready (new_open_list d w).0 (new_open_list d w).1 (or_empty (rows w))
  unfolding new_open_list create_db_lite
  start-IsShown w =
      let at_path = d.make_path w (d.data_location ++ qs "/SQLITE") in
      let opened =
        (d.open_db at_path ((d.data_location ++ qs "/SQLITE") ++ qs "/db_lite.sqlite3")).0 in
      let (ready, holds) = create_db_table-rows opened (works.opens at_path _) in
      init_vec-IsShown _ _ _ _ ready holds
        (rw (laws.open_keeps at_path _, laws.path_keeps w _) Perm.rfl)

  insert-table :
      (w : d.World) (path : QString) (table : List QString)
      → Ready w
      → rows w ≡ some table
      → path ≢ []
      → (ys : List QString) × (rows (d.exec w (d.prepare w insert_sql) insert_sql (path ∷ [])).0
          ≡ some ys)
        × Perm ys (insert same_text path table)
  insert-table w path table ready holds text = elim (dec_mem same_text path table) [
    | yes there ↦
        let (ys, kept, is) = insert-Inserted d rows laws w path table holds in
        (ys, kept, rw (insert_of_mem same_text there) (still _ ys is there))
    | no new ↦
        let (prepared, ok) = works.inserts w path table ready holds text new in
        let (_, ys, kept, order) = laws.inserted w path table holds ok in
        (ys, rw prepared kept, rw (insert_of_not-mem same_text new) order)
  ]
    where
      still :
          (ok : Bool) (ys : List QString)
          → Inserted ok path table ys
          → Mem path table
          → Perm ys table
      still true ys is there = absurd (is.0 there)
      still false ys is there = rw is Perm.rfl

  add_db-IsShown :
      (o : OpenList) (w : d.World) (path : QString) (xs : List QString)
      → path ≢ []
      → IsShown d rows Ready o w xs
      → IsShown d rows Ready (add_db d o w path).0 (add_db d o w path).1 (insert same_text path xs)
  unfolding add_db
  add_db-IsShown o w path xs text before =
      let (table, kept, order) = insert-table w path before.table before.ready before.holds text in
      init_vec-IsShown _ _ _ table (works.stays w _ _ _ before.ready) kept
        (Perm.trans order (Perm.insert same_text path before.is_set))

  add_all-IsShown :
      (paths xs : List QString) (o : OpenList) (w : d.World)
      → AllTexts paths
      → IsShown d rows Ready o w xs
      → IsShown d rows Ready (add_all d o w paths).0 (add_all d o w paths).1 (remember xs paths)
  add_all-IsShown [] xs o w texts before = before
  add_all-IsShown (path ∷ paths) xs o w texts before =
      add_all-IsShown paths (insert same_text path xs) (add_db d o w path).0 (add_db d o w path).1
        texts.1 (add_db-IsShown o w path xs texts.0 before)

  -- Over a database that works: after a start and any number of opened files, whose paths are not
  -- empty, the list holds, each once and in some order, the paths that the table held before and
  -- those opened.
  pub add_all-remember :
      (w : d.World) (paths : List QString)
      → AllTexts paths
      → let (o, w') = new_open_list d w in
        Perm (add_all d o w' paths).0.vec (remember (or_empty (rows w)) paths)
        × Nodup (add_all d o w' paths).0.vec
  add_all-remember w paths texts =
      let end = add_all-IsShown paths _ _ _ texts (start-IsShown w) in
      (
        Perm.trans end.shown end.is_set,
        Perm.nodup (Perm.symm end.shown) (laws.distinct _ end.table end.holds),
      )

  -- Over a database that works: after a start and any number of opened files, whose paths are not
  -- empty, the next start shows, in some order, what the list held at the end.
  pub new_open_list_again :
      (w : d.World) (paths : List QString)
      → AllTexts paths
      → let (o, w') = new_open_list d w in
        let (o', w'') = add_all d o w' paths in Perm (new_open_list d w'').0.vec o'.vec
  new_open_list_again w paths texts =
      let end = add_all-IsShown paths _ _ _ texts (start-IsShown w) in
      let next = start-IsShown (add_all d _ _ paths).1 in
      Perm.trans (Perm.trans next.shown next.is_set) (rw end.holds (Perm.symm end.shown))
