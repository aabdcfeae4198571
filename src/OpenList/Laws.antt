-- ===== src/OpenList/Laws.antt =====
-- The list and the table behind every operation, whatever fails.
use mathlib.Core.List.{Perm, Mem}
use mini_wireshark.Base.{
  ◌≡◌, Bool, refl, ◌∙◌, sym, inl, inr, true, false, Bool-cases, ◌&&◌, List, [], ◌∷◌, ◌++◌, map,
  some, append_assoc, append-nil,
}
use mini_wireshark.Qt.{QString}
use mini_wireshark.OpenList.{
  Database, OpenList, Answer, insert_sql, add_db, select_sql, check_query_prepare, check_query_exec,
  collect, update_vec, init_vec,
}
use mini_wireshark.OpenList.Table.{Rows, TableLaws, single}

pub collect-single : (acc ys : List QString) → collect acc (map single ys) ≡ acc ++ ys
unfolding collect
collect-single acc [] = sym (append-nil acc)
collect-single acc (y ∷ ys) = collect-single (acc ++ y ∷ []) ys ∙ append_assoc acc (y ∷ []) ys

-- What an INSERT leaves: where it succeeds, the path is added, which was not there; else the table
-- is as it was.
abbrev pub Inserted : Bool → QString → List QString → List QString → Type 0
Inserted true path xs ys = (¬ Mem path xs) × Perm ys (path ∷ xs)
Inserted false path xs ys = ys ≡ xs

-- The INSERT of add_db in a world.
abbrev pub insert : (d : Database) → d.World → QString → d.World × Answer
insert d w path = d.exec w (d.prepare w insert_sql) insert_sql (path ∷ [])

-- The SELECT behind it. Its second part is whether both calls succeed.
abbrev pub select : (d : Database) → d.World → Answer
select d w = (d.exec w (d.prepare w select_sql) select_sql []).1

abbrev pub selected : (d : Database) → d.World → Bool
selected d w = d.prepare w select_sql && (select d w).ok

-- Where the SELECT succeeds, the list is what next() answered, row by row, which are paths of the
-- table, each once; else it is the list before.
abbrev pub Shows : Bool → Answer → OpenList → OpenList → List QString → Type 0
Shows true answer o o' xs =
    (answer.rows ≡ map single o'.vec) × (missed : List QString) × Perm (o'.vec ++ missed) xs
Shows false answer o o' xs = o'.vec ≡ o.vec

module _ (d : Database) (rows : Rows d) (laws : TableLaws d rows) where
  pub init_vec-Shows :
      (o : OpenList) (w : d.World) (xs : List QString)
      → rows w ≡ some xs
      → (rows (init_vec d o w).1 ≡ some xs)
        × Shows
            (d.prepare w select_sql && (d.exec w (d.prepare w select_sql) select_sql []).1.ok)
            (d.exec w (d.prepare w select_sql) select_sql []).1
            o
            (init_vec d o w).0
            xs
  unfolding init_vec check_query_prepare check_query_exec update_vec
  init_vec-Shows o w xs holds = elim (Bool-cases (d.prepare w select_sql)) [
    | inl prepared ↦ elim (Bool-cases (d.exec w true select_sql []).1.ok) [
      | inl ok ↦
          let (same, ys, missed, answer, order) = laws.selected w xs holds ok in
          rw (prepared, ok, answer, collect-single [] ys) (same, (refl, missed, order))
      | inr bad ↦ rw (prepared, bad) (laws.failed w true select_sql [] bad ∙ holds, refl)
    ]
    | inr bad ↦ rw bad (holds, refl)
  ]

  exec-Inserted :
      (w : d.World) (path : QString) (xs : List QString) (prepared : Bool)
      → rows w ≡ some xs
      → (ys : List QString) × (rows (d.exec w prepared insert_sql (path ∷ [])).0 ≡ some ys)
        × Inserted (d.exec w prepared insert_sql (path ∷ [])).1.ok path xs ys
  exec-Inserted w path xs false holds = (
    xs,
    laws.failed w false insert_sql (path ∷ []) (laws.unprepared w _ _) ∙ holds,
    rw (laws.unprepared w insert_sql (path ∷ [])) refl,
  )
  exec-Inserted w path xs true holds =
      elim (Bool-cases (d.exec w true insert_sql (path ∷ [])).1.ok) [
        | inl ok ↦
            let (new, ys, same, order) = laws.inserted w path xs holds ok in
            (ys, same, rw ok (new, order))
        | inr bad ↦ (xs, laws.failed w true insert_sql (path ∷ []) bad ∙ holds, rw bad refl)
      ]

  pub insert-Inserted :
      (w : d.World) (path : QString) (xs : List QString)
      → rows w ≡ some xs
      → (ys : List QString) × (rows (insert d w path).0 ≡ some ys)
        × Inserted (insert d w path).1.ok path xs ys
  insert-Inserted w path xs holds = exec-Inserted w path xs (d.prepare w insert_sql) holds

  -- Where the table exists, on every outcome of the statements: if the INSERT succeeds, the path was
  -- not in the table and is now, else the table is as it was. If the SELECT behind it is prepared
  -- and succeeds, the list is what next() answered, row by row, and these are paths of the table,
  -- each once; else the list is the one before.
  pub add_db-Shows :
      (o : OpenList) (w : d.World) (path : QString) (xs : List QString)
      → rows w ≡ some xs
      → (ys : List QString) × (rows (add_db d o w path).1 ≡ some ys)
        × Inserted (insert d w path).1.ok path xs ys
        × Shows
            (selected d (insert d w path).0)
            (select d (insert d w path).0)
            o
            (add_db d o w path).0
            ys
  unfolding add_db
  add_db-Shows o w path xs holds =
      let (ys, same, is) = insert-Inserted w path xs holds in
      let (kept, shows) = init_vec-Shows o (insert d w path).0 ys same in (ys, kept, is, shows)
