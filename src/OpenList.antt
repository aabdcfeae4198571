-- ===== src/OpenList.antt =====
-- Open_List.h and Open_List.cpp: the list of opened files, kept in an SQLite table. The file system
-- with the database, and Qt's SQL classes, are parameters. The views read the model anew after
-- update_vec; logging is not kept.
pub mod Table
pub mod Laws
pub mod Session
use mini_wireshark.Base.{
  ℕ, Bool, true, false, not, List, [], ◌∷◌, ◌++◌, Option, none, some, length, leb, get_elem?,
  get_or, ◌>>=◌, if◌then◌else◌,
}
use mini_wireshark.Qt.{QString, qs}
use mini_wireshark.Qt.ListModel.{ModelIndex, invalid, at_row, is_valid, Variant, null, text}

-- A row of a result: its columns as texts.
abbrev pub Columns : Type 0
Columns = List QString

-- What exec returns, and the rows that next() and value() read.
pub record Answer : Type 0 where
  pub ok : Bool
  pub rows : List Columns

-- What the class calls. A world is the file system with the connection DB_THREAD_CONN_SQLITE.
pub record Database : Type 1 where
  pub World : Type 0
  -- QStandardPaths::writableLocation(AppDataLocation)
  pub data_location : QString
  -- QDir::mkpath
  pub make_path : World → QString → World
  -- QSqlDatabase::addDatabase, setDatabaseName and open
  pub open_db : World → QString → World × Bool
  -- QSqlQuery::prepare
  pub prepare : World → QString → Bool
  -- QSqlQuery::exec behind a prepare that answered so, with the bound values
  pub exec : World → Bool → QString → List QString → World × Answer

pub record OpenList : Type 0 where
  pub vec : List QString
  pub cur_path : QString

-- The base class's constructor.
abbrev pub empty_list : OpenList
empty_list = record { vec = []; cur_path = [] }

-- The texts of the statements.
abbrev pub create_sql : QString
create_sql = qs "CREATE TABLE open_list (path TEXT PRIMARY KEY NOT NULL);"

abbrev pub insert_sql : QString
insert_sql = qs "INSERT INTO open_list (path) VALUES (:path)"

abbrev pub select_sql : QString
select_sql = qs "SELECT * FROM open_list"

-- Both log the error.
unfoldable pub check_query_prepare : Bool → Bool
check_query_prepare ok = if not ok then false else true

unfoldable pub check_query_exec : Bool → Bool
check_query_exec ok = if not ok then false else true

-- while (query.next()) vec_tmp.push_back(query.value(0).toString()); a value that is not there is
-- the empty text.
unfoldable pub collect : List QString → List Columns → List QString
collect vec_tmp [] = vec_tmp
collect vec_tmp (row ∷ rows) = collect (vec_tmp ++ get_or row 0 [] ∷ []) rows

unfoldable pub update_vec : OpenList → List QString → OpenList
update_vec o vec_tmp = record o { vec = vec_tmp }

module _ (d : Database) where
  unfoldable pub create_db_table : d.World → d.World
  unfolding check_query_prepare
  create_db_table w =
      let ok : Bool = d.prepare w create_sql in
      if not (check_query_prepare ok) then w else (d.exec w ok create_sql []).0

  -- An open that fails is logged only.
  unfoldable pub create_db_lite : OpenList → d.World → OpenList × d.World
  unfolding create_db_table
  create_db_lite o w =
      let s_data_dir : QString = d.data_location ++ qs "/SQLITE" in
      let s_db_path : QString = s_data_dir ++ qs "/db_lite.sqlite3" in
      let opened : d.World = (d.open_db (d.make_path w s_data_dir) s_db_path).0 in
      (record o { cur_path = s_data_dir }, create_db_table opened)

  unfoldable pub init_vec : OpenList → d.World → OpenList × d.World
  unfolding check_query_prepare check_query_exec collect update_vec
  init_vec o w =
      let ok : Bool = d.prepare w select_sql in
      let (w', answer) = d.exec w ok select_sql [] in
      if not (check_query_prepare ok)
      then (o, w)
      else if not (check_query_exec answer.ok)
      then (o, w')
      else (update_vec o (collect [] answer.rows), w')

  unfoldable pub new_open_list : d.World → OpenList × d.World
  unfolding create_db_lite init_vec
  new_open_list w = let (o, w') = create_db_lite empty_list w in init_vec o w'

  -- The returns behind a failed prepare and a failed exec of the INSERT are commented out. The rest
  -- is the text of init_vec.
  unfoldable pub add_db : OpenList → d.World → QString → OpenList × d.World
  unfolding init_vec
  add_db o w path =
      let ok : Bool = d.prepare w insert_sql in init_vec o (d.exec w ok insert_sql (path ∷ [])).0

-- enum Role: pathRole is Qt::UserRole + 1; any other role is `other_role`.
pub data Role : Type 0 where
  path_role other_role : Role

unfoldable pub row_count : OpenList → ModelIndex → ℕ
row_count o parent = if is_valid parent then 0 else length o.vec

unfoldable pub role_names : List (Role × QString)
role_names = (path_role, qs "path") ∷ []

abbrev pub cell : QString → Role → Variant
cell path path_role = text path
cell path other_role = null

-- `vec.at` is asked for a row only behind the test; outside it would be a fault.
unfoldable pub model_data : OpenList → ModelIndex → Role → Option Variant
model_data o invalid role = some null
model_data o (at_row i) role =
    if leb (length o.vec) i then some null else do path ← get_elem? o.vec i; some (cell path role)
