-- ===== src/Lru/Cells.antt =====
-- What a linked list of cache nodes stands for: the address and the item of each node, in order.
-- `denote` is the memory that such a list occupies, and `Rep` says that a cache holds it.
use network_server.Base.{
  suc, ◌<◌, ◌≤◌, ◌^◌, ◌≡◌, ◌≢◌, refl, ap, ◌⊎◌, inl, inr, Bool, true, false, ◌||◌, Option, none,
  some, List, [], ◌∷◌, ◌++◌, arith, ◌==◌, if◌then◌else◌, length, ==_iff,
}
use network_server.Lru.{Ptr, null, Item, ItemNode, FileCache}

abbrev pub Cells : Type 0
Cells = List (Ptr × Item)

abbrev pub items : Cells → List Item
items [] = []
items ((p, x) ∷ xs) = x ∷ items xs

abbrev pub has : Ptr → Cells → Bool
has q [] = false
has q ((p, x) ∷ xs) = (q == p) || has q xs

-- The address of the first node, or else `stop`; of the last, or else `start`.
abbrev pub first : Cells → Ptr → Ptr
first [] stop = stop
first ((p, x) ∷ xs) stop = p

abbrev pub last : Ptr → Cells → Ptr
last start [] = start
last start ((p, x) ∷ xs) = last p xs

abbrev pub node : Ptr → Ptr → Item → ItemNode
node next prev x = record { next = next; prev = prev; item = x }

-- The nodes of `xs`, whose first `prev` is `start` and whose last `next` is `stop`.
abbrev pub denote : Ptr → Cells → Ptr → Ptr → Option ItemNode
denote start [] stop q = none
denote start ((p, x) ∷ xs) stop q =
    if q == p then some (node (first xs stop) start x) else denote p xs stop q

abbrev pub Distinct : Cells → Type 0
Distinct [] = Unit {0}
Distinct ((p, x) ∷ xs) = (p ≢ null) × (has p xs ≡ false) × Distinct xs

pub record Rep (c : FileCache) (xs : Cells) : Type 0 where
  pub nodes : (q : Ptr) → c.nodes q ≡ denote null xs null q
  pub head : c.head ≡ first xs null
  pub tail : c.tail ≡ last null xs
  pub count : c.num_items ≡ length xs
  pub distinct : Distinct xs
  pub within : length xs ≤ c.max_num_items
  pub small : c.max_num_items < 2 ^ 64

pub items-append : (xs ys : Cells) → items (xs ++ ys) ≡ items xs ++ items ys
items-append [] ys = refl
items-append ((p, x) ∷ xs) ys = ap (◌∷◌ x) (items-append xs ys)

pub length-items : (xs : Cells) → length (items xs) ≡ length xs
length-items [] = refl
length-items ((p, x) ∷ xs) = ap suc (length-items xs)

pub has-append : (q : Ptr) (xs ys : Cells) → has q (xs ++ ys) ≡ (has q xs || has q ys)
has-append q [] ys = refl
has-append q ((p, x) ∷ xs) ys = ground (arith, has-append q xs ys)

pub first-append : (xs ys : Cells) (stop : Ptr) → first (xs ++ ys) stop ≡ first xs (first ys stop)
first-append [] ys stop = refl
first-append ((p, x) ∷ xs) ys stop = refl

pub last-append : (start : Ptr) (xs ys : Cells) → last start (xs ++ ys) ≡ last (last start xs) ys
last-append start [] ys = refl
last-append start ((p, x) ∷ xs) ys = last-append p xs ys

pub denote-append :
    (start : Ptr) (xs ys : Cells) (stop q : Ptr)
    → denote start (xs ++ ys) stop q
      ≡ (if has q xs then denote start xs (first ys stop) q else denote (last start xs) ys stop q)
denote-append start [] ys stop q = refl
denote-append start ((p, x) ∷ xs) ys stop q =
    ground (arith, denote-append p xs ys stop q, first-append xs ys stop)

pub denote_out :
    (start : Ptr) (xs : Cells) (stop q : Ptr) → has q xs ≡ false → denote start xs stop q ≡ none
denote_out start [] stop q h = refl
denote_out start ((p, x) ∷ xs) stop q h = ground (arith, denote_out p xs stop q)

-- The parts of a list share no address.
pub Distinct-append :
    (xs ys : Cells)
    → Distinct (xs ++ ys)
    → Distinct xs × Distinct ys × ((q : Ptr) → has q xs ≡ true → has q ys ≡ false)
Distinct-append [] ys d = (tt, d, λ q h. cc)
Distinct-append ((p, x) ∷ xs) ys (ne, out, d) =
    let (dx, dy, apart) = Distinct-append xs ys d in
    (
      (ne, ground (arith, has-append p xs ys), dx),
      dy,
      λ q h. ground (arith, has-append p xs ys, apart q, ==_iff q p),
    )

pub append-Distinct :
    (xs ys : Cells)
    → Distinct xs
    → Distinct ys
    → ((q : Ptr) → has q xs ≡ true → has q ys ≡ false)
    → Distinct (xs ++ ys)
append-Distinct [] ys dx dy apart = dy
append-Distinct ((p, x) ∷ xs) ys (ne, out, dx) dy apart = (
  ne,
  ground (arith, has-append p xs ys, apart p),
  append-Distinct xs ys dx dy (λ q h. apart q (ground arith)),
)

-- A list is empty, or ends in a node.
pub Snoc-cases :
    (xs : Cells) → (xs ≡ []) ⊎ ((ys : Cells) × (p : Ptr) × (x : Item) × (xs ≡ ys ++ (p, x) ∷ []))
Snoc-cases [] = inl refl
Snoc-cases ((p, x) ∷ xs) = elim (Snoc-cases xs) [
  | inl e ↦ inr ([], p, x, ap (◌∷◌ (p, x)) e)
  | inr (ys, q, y, e) ↦ inr ((p, x) ∷ ys, q, y, ap (◌∷◌ (p, x)) e)
]
