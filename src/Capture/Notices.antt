-- ===== src/Capture/Notices.antt =====
-- Capture.cpp: what each operation tells the views (beginInsertRows, beginResetModel), and a view
-- that keeps a copy of the rows by these notices alone.
use mini_wireshark.Base.{
  ℕ, suc, ◌-◌, ◌≡◌, refl, ap, List, [], ◌∷◌, ◌++◌, Option, some, length, take, drop, ◌>>=◌,
  Option-cases, >>=-eq-some, arith, inl, inr,
}
use mini_wireshark.Qt.{Qt}
use mini_wireshark.Packet.Rows.{StPkt}
use mini_wireshark.Capture.Model.{Capture, update_md, reset}
use mini_wireshark.Capture.Sorts.{StdSort, sort_num, sort_src, sort_dst, sort_proto, sort_len}

-- The rows from `first` to `last` are new, or all rows are.
pub data Notice : Type 0 where
  insert_rows : ℕ → ℕ → Notice
  reset_model : Notice

-- The calls of the model that change its rows.
pub data Action : Type 0 where
  append : StPkt → Action
  empty by_num by_src by_dst by_proto by_len : Action

-- `row` is the number of rows before the new one.
abbrev pub insert_notice : Capture → Notice
insert_notice c = let row : ℕ = length c.vec in insert_rows row row

-- Every sort button ends with a reset of the model.
unfoldable pub act : Qt → StdSort → Capture → Action → Option (Capture × Notice)
act q sort c (append pkt) = some (update_md c pkt, insert_notice c)
act q sort c empty = some (reset c, reset_model)
act q sort c by_num = do c' ← sort_num sort c; some (c', reset_model)
act q sort c by_src = do c' ← sort_src q sort c; some (c', reset_model)
act q sort c by_dst = do c' ← sort_dst q sort c; some (c', reset_model)
act q sort c by_proto = do c' ← sort_proto sort c; some (c', reset_model)
act q sort c by_len = do c' ← sort_len sort c; some (c', reset_model)

-- A view reads the rows that it is told of, and keeps the others, moved behind them.
unfoldable pub refresh : Capture → Notice → List StPkt → List StPkt
refresh c (insert_rows first last) view =
    take first view ++ (take (suc last - first) (drop first c.vec) ++ drop first view)
refresh c reset_model view = c.vec

abbrev pub run : Qt → StdSort → Capture → List Action → Option Capture
run q sort c [] = some c
run q sort c (a ∷ later) = act q sort c a >>= λ r. run q sort r.0 later

-- The same, with a view that follows the notices.
abbrev pub watch : Qt → StdSort → Capture → List StPkt → List Action → Option (Capture × List StPkt)
watch q sort c view [] = some (c, view)
watch q sort c view (a ∷ later) =
    act q sort c a >>= λ r. watch q sort r.0 (refresh r.0 r.1 view) later

refresh-snoc :
    (xs : List StPkt) (x : StPkt) (n : ℕ)
    → n ≡ 1
    → take (length xs) xs ++ (take n (drop (length xs) (xs ++ x ∷ [])) ++ drop (length xs) xs)
      ≡ xs ++ x ∷ []
refresh-snoc [] x n one = rw one refl
refresh-snoc (y ∷ ys) x n one = ap (λ zs. y ∷ zs) (refresh-snoc ys x n one)

refresh-reset :
    (c c' s : Capture) (n : Notice)
    → ◌≡◌ {A = Option (Capture × Notice)} (some (s, reset_model)) (some (c', n))
    → refresh c' n c.vec ≡ c'.vec
unfolding refresh
refresh-reset c c' s n done = let same : n ≡ reset_model = cc in rw same refl

act-refresh :
    (q : Qt) (sort : StdSort) (c c' : Capture) (a : Action) (n : Notice)
    → act q sort c a ≡ some (c', n)
    → refresh c' n c.vec ≡ c'.vec
unfolding act refresh update_md
act-refresh q sort c c' (append pkt) n done =
    let told : n ≡ insert_notice c = cc in
    let rows : c' ≡ update_md c pkt = cc in
    rw (told, rows) (refresh-snoc c.vec pkt (suc (length c.vec) - length c.vec) (omega arith))
act-refresh q sort c c' empty n done = refresh-reset c c' (reset c) n done
act-refresh q sort c c' by_num n done =
    let (s, _, made) = >>=-eq-some (sort_num sort c) _ done in refresh-reset c c' s n made
act-refresh q sort c c' by_src n done =
    let (s, _, made) = >>=-eq-some (sort_src q sort c) _ done in refresh-reset c c' s n made
act-refresh q sort c c' by_dst n done =
    let (s, _, made) = >>=-eq-some (sort_dst q sort c) _ done in refresh-reset c c' s n made
act-refresh q sort c c' by_proto n done =
    let (s, _, made) = >>=-eq-some (sort_proto sort c) _ done in refresh-reset c c' s n made
act-refresh q sort c c' by_len n done =
    let (s, _, made) = >>=-eq-some (sort_len sort c) _ done in refresh-reset c c' s n made

-- Whatever rows are added, and however often the list is emptied and sorted: a view that keeps its
-- copy of the rows by the notices of the model alone shows the model's rows at the end, and there
-- is a fault with it only where there is one without it.
pub watch-run :
    (q : Qt) (sort : StdSort) (c : Capture) (actions : List Action)
    → watch q sort c c.vec actions ≡ (run q sort c actions >>= λ end. some (end, end.vec))
watch-run q sort c [] = refl
watch-run q sort c (a ∷ later) = elim (Option-cases (act q sort c a)) [
  | inl fault ↦ rw fault refl
  | inr ((c', n), done) ↦ rw (done, act-refresh q sort c c' a n done) (watch-run q sort c' later)
]
