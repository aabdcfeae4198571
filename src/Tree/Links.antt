-- ===== src/Tree/Links.antt =====
-- The links between the nodes of a tree that is built as start_tree_md builds it, by `new
-- TreeItem(title, p)` and `p->addChild(c)`: children and parents agree.
use mini_wireshark.Base.{
  ℕ, zero, suc, ◌+◌, ◌<◌, ◌≡◌, refl, ◌∙◌, sym, List, [], ◌∷◌, ◌++◌, Option, none, some, arith,
  length, get_elem?, ap, ◌==◌, if◌then◌else◌, ◌>>=◌, ltb, ◌⊎◌, inl, inr,
}
use mini_wireshark.Base.Int.{pos}
use mini_wireshark.Qt.{QString}
use mini_wireshark.Tree.Heap.{TreeItem, Heap, set, new_item, add_child, index_from}

get_elem?-set :
    {A : Type 0} (xs : List A) (i j : ℕ) (v : A)
    → get_elem? (set xs i v) j
      ≡ (if j == i then (if ltb i (length xs) then some v else none) else get_elem? xs j)
get_elem?-set [] i j v = ground arith
get_elem?-set (x ∷ xs) zero zero v = ground arith
get_elem?-set (x ∷ xs) zero (suc j) v = ground arith
get_elem?-set (x ∷ xs) (suc i) zero v = ground arith
get_elem?-set (x ∷ xs) (suc i) (suc j) v = ground (arith, get_elem?-set xs i j v)

pub get_elem?-snoc :
    {A : Type 0} (xs : List A) (v : A) (j : ℕ)
    → get_elem? (xs ++ v ∷ []) j ≡ (if j == length xs then some v else get_elem? xs j)
get_elem?-snoc [] v zero = ground arith
get_elem?-snoc [] v (suc j) = ground arith
get_elem?-snoc (x ∷ xs) v zero = ground arith
get_elem?-snoc (x ∷ xs) v (suc j) = ground (arith, get_elem?-snoc xs v j)

pub get_elem?-lt :
    {A : Type 0} (xs : List A) (i : ℕ) (x : A) → get_elem? xs i ≡ some x → i < length xs
get_elem?-lt [] i x h = ground arith
get_elem?-lt (y ∷ ys) zero x h = omega arith
get_elem?-lt (y ∷ ys) (suc i) x h = ground (arith, get_elem?-lt ys i x)

-- Each child of a node stands once in its list, and names the node as its parent.
pub record Links (h : Heap) : Type 0 where
  pub up :
      (p r c : ℕ) (x : TreeItem)
      → get_elem? h p ≡ some x
      → get_elem? x.children r ≡ some c
      → (y : TreeItem) × (get_elem? h c ≡ some y) × (y.parent ≡ some p)
  pub once :
      (p r s c : ℕ) (x : TreeItem)
      → get_elem? h p ≡ some x
      → get_elem? x.children r ≡ some c
      → get_elem? x.children s ≡ some c
      → s ≡ r

-- `index_from` finds the only place of a child.
pub index_from-get_elem? :
    (i r c : ℕ) (ds : List ℕ)
    → get_elem? ds r ≡ some c
    → ((s : ℕ) → get_elem? ds s ≡ some c → s ≡ r)
    → index_from i c ds ≡ pos (i + r)
unfolding index_from
index_from-get_elem? i r c [] h first = ground arith
index_from-get_elem? i zero c (d ∷ ds) h first = ground arith
index_from-get_elem? i (suc r) c (d ∷ ds) h first = ground (
  arith,
  index_from-get_elem? (suc i) r c ds h (λ s at. omega (arith, first (suc s) at)),
  first 0,
)

-- `new TreeItem(title, p)` and `p->addChild(c)`: the heap and the new node.
unfoldable pub attach : Heap → QString → ℕ → Option (Heap × ℕ)
attach h title p =
    let made : Heap × ℕ = new_item h title (some p) in
    do linked ← add_child made.0 p made.1; some (linked, made.1)

module _ (h : Heap) (t : QString) (p : ℕ) (x : TreeItem) (here : get_elem? h p ≡ some x) where
  abbrev pub fresh : TreeItem
  fresh = record { s_title = t; children = []; parent = some p }

  abbrev pub grown : TreeItem
  grown = record x { children = x.children ++ length h ∷ [] }

  abbrev pub linked : Heap
  linked = set (set (h ++ fresh ∷ []) p grown) (length h) fresh

  length-set : {A : Type 0} (xs : List A) (i : ℕ) (v : A) → length (set xs i v) ≡ length xs
  length-set [] i v = refl
  length-set (y ∷ ys) zero v = refl
  length-set (y ∷ ys) (suc i) v = ap suc (length-set ys i v)

  length-snoc : {A : Type 0} (xs : List A) (v : A) → length (xs ++ v ∷ []) ≡ suc (length xs)
  length-snoc [] v = refl
  length-snoc (y ∷ ys) v = ap suc (length-snoc ys v)

  pub get_elem?-linked :
      (j : ℕ)
      → get_elem? linked j
        ≡ (if j == length h then some fresh else if j == p then some grown else get_elem? h j)
  get_elem?-linked j = ground (
    arith,
    get_elem?-lt h p x here,
    get_elem?-set (set (h ++ fresh ∷ []) p grown) (length h) j fresh,
    get_elem?-set (h ++ fresh ∷ []) p j grown,
    get_elem?-snoc h fresh j,
    length-set (h ++ fresh ∷ []) p grown,
    length-snoc h fresh,
  )

  pub attach-linked : attach h t p ≡ some (linked, length h)
  unfolding attach new_item add_child
  attach-linked = rw (get_elem?-snoc h fresh p) (
      ground (
        arith,
        get_elem?-lt h p x here,
        get_elem?-set (h ++ fresh ∷ []) p (length h) grown,
        get_elem?-snoc h fresh (length h),
      ))

  pub length-linked : length linked ≡ suc (length h)
  length-linked =
      length-set (set (h ++ fresh ∷ []) p grown) (length h) fresh
      ∙ length-set (h ++ fresh ∷ []) p grown
      ∙ length-snoc h fresh

  -- What a node of the new heap was before.
  node_before :
      (q : ℕ) (z : TreeItem)
      → get_elem? linked q ≡ some z
      → ((q ≡ length h) × (z ≡ fresh)) ⊎ ((q ≡ p) × (z ≡ grown)) ⊎ (get_elem? h q ≡ some z)
  node_before q z at = ground (arith, get_elem?-linked q)

  -- A node that was there is there, with its parent.
  node_after :
      (q : ℕ) (y : TreeItem)
      → get_elem? h q ≡ some y
      → (z : TreeItem) × (get_elem? linked q ≡ some z) × (z.parent ≡ y.parent)
  node_after q y at = (
    (if q == p then grown else y),
    ground (arith, get_elem?-linked q, get_elem?-lt h q y at),
    ground arith,
  )

  grown_kid :
      (r c : ℕ)
      → get_elem? grown.children r ≡ some c
      → ((c ≡ length h) × (r ≡ length x.children)) ⊎ (get_elem? x.children r ≡ some c)
  grown_kid r c kid = ground (arith, get_elem?-snoc x.children (length h) r)

  -- A child of a node that was there was there.
  old_kid : Links h → (r c : ℕ) → get_elem? x.children r ≡ some c → c < length h
  old_kid l r c kid = let (y, there, up) = l.up p r c x here kid in get_elem?-lt h c y there

  grown_up :
      Links h
      → (r c : ℕ) → get_elem? grown.children r ≡ some c
      → (y : TreeItem) × (get_elem? linked c ≡ some y) × (y.parent ≡ some p)
  grown_up l r c kid = elim (grown_kid r c kid) [
    | inl (new, last) ↦ (fresh, ground (arith, get_elem?-linked c), refl)
    | inr old ↦
        (let (y, there, up) = l.up p r c x here old in
          let (y', now, parent) = node_after c y there in (y', now, parent ∙ up))
  ]

  grown_once :
      Links h
      → (r s c : ℕ) → get_elem? grown.children r ≡ some c
      → get_elem? grown.children s ≡ some c
      → s ≡ r
  grown_once l r s c kid other = elim (grown_kid r c kid) [
    | inl (new, last) ↦ elim (grown_kid s c other) [
      | inl (new', last') ↦ omega arith
      | inr old ↦ absurd (omega (arith, old_kid l s c old))
    ]
    | inr old ↦ elim (grown_kid s c other) [
      | inl (new', last') ↦ absurd (omega (arith, old_kid l r c old))
      | inr old' ↦ l.once p r s c x here old old'
    ]
  ]

  -- Adding a child to a node keeps the links.
  pub Links-linked : Links h → Links linked
  Links-linked l = record {
    up = λ q r c z at kid. elim (node_before q z at) [
      | inl (is, same) ↦ absurd (ground (arith, same))
      | inr (inl (is, same)) ↦
          rw is (grown_up l r c (ap (λ n. get_elem? n.children r) (sym same) ∙ kid))
      | inr (inr old) ↦
          (let (y, there, up) = l.up q r c z old kid in
            let (y', now, parent) = node_after c y there in (y', now, parent ∙ up))
    ];
    once = λ q r s c z at kid other. elim (node_before q z at) [
      | inl (is, same) ↦ absurd (ground (arith, same))
      | inr (inl (is, same)) ↦
          grown_once l r s c (ap (λ n. get_elem? n.children r) (sym same) ∙ kid)
            (ap (λ n. get_elem? n.children s) (sym same) ∙ other)
      | inr (inr old) ↦ l.once q r s c z old kid other
    ];
  }
