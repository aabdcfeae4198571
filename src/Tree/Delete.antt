-- ===== src/Tree/Delete.antt =====
-- TreeItem::~TreeItem over a tree whose nodes were made one behind the other.
use mini_wireshark.Base.{
  ℕ, zero, suc, ◌+◌, ◌-◌, ◌≤◌, ◌<◌, ◌≡◌, refl, false, ◌&&◌, ◌||◌, List, [], ◌∷◌, some, arith,
  length, get_elem?, leb, ltb,
}
use mini_wireshark.Tree.Heap.{TreeItem, Heap, has, delete_each, delete_item}

-- The items at some places and what is below them stand at lo, lo + 1 and so on up to hi - 1, each
-- before its children, and these before its next sibling.
pub data Laid (h : Heap) : ℕ → List ℕ → ℕ → Type 0 where
  no_items : {lo : ℕ} → Laid h lo [] lo
  one_item :
      {lo mid hi : ℕ} {cs : List ℕ} (x : TreeItem)
      → get_elem? h lo ≡ some x
      → Laid h (suc lo) x.children mid
      → Laid h mid cs hi
      → Laid h lo (lo ∷ cs) hi

pub Laid-le : {h : Heap} {lo hi : ℕ} {cs : List ℕ} → Laid h lo cs hi → lo ≤ hi
Laid-le no_items = omega arith
Laid-le (one_item x there under rest) = omega (arith, Laid-le under, Laid-le rest)

-- The places from lo on that are below hi are deleted as well, and each once.
pub record Frees (lo hi : ℕ) (freed freed' : List ℕ) : Type 0 where
  pub all : (q : ℕ) → has q freed' ≡ (leb lo q && ltb q hi) || has q freed
  pub once : length freed' ≡ (hi - lo) + length freed

abbrev pub Alive : ℕ → ℕ → List ℕ → Type 0
Alive lo hi freed = (q : ℕ) → lo ≤ q → q < hi → has q freed ≡ false

pub delete_each-Laid :
    {h : Heap} {lo hi : ℕ} {cs : List ℕ}
    → Laid h lo cs hi
    → (fuel : ℕ) (freed : List ℕ) → hi ≤ fuel + lo
    → Alive lo hi freed
    → (freed' : List ℕ) × (delete_each (delete_item fuel h) freed cs ≡ some freed')
      × Frees lo hi freed freed'
unfolding delete_each delete_item
delete_each-Laid no_items fuel freed enough alive =
    (freed, refl, record { all = λ q. ground arith; once = omega arith })
delete_each-Laid (one_item x there under rest) zero freed enough alive =
    absurd (omega (arith, Laid-le under, Laid-le rest))
delete_each-Laid {h} {lo} {hi} (one_item {mid} {cs} x there under rest) (suc fuel) freed enough
      alive =
    let low = Laid-le under in
    let high = Laid-le rest in
    let (kids, below, f) =
      delete_each-Laid under fuel freed (omega arith)
        (λ q above q-below. alive q (omega arith) (omega arith)) in
    let (freed', later, g) =
      delete_each-Laid rest (suc fuel) (lo ∷ kids) (omega arith)
        (λ q above q-below. ground (arith, f.all q, alive q)) in
    (
      freed',
      rw (alive lo (omega arith) (omega arith), there, below) later,
      record { all = λ q. ground (arith, g.all q, f.all q); once = omega (arith, g.once, f.once) },
    )
