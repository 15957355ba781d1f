-- ===== src/Lru/Locked/Matches.antt =====
-- The first item of a name, when another item is removed or changed.
use network_server.Base.{
  ◌≡◌, ◌≢◌, ◌⊎◌, inl, inr, refl, sym, ◌∙◌, ap, Bool, true, false, some, List, [], ◌∷◌, Bytes, arith,
  Bool-cases, bytes_eq, bytes_eq_iff, bytes_eq_self,
}
use network_server.Lru.{Item, has_name}
use network_server.Lru.Spec.{first_match, remove_first, update_first, last_item, drop_last}

-- The first item of this name is `x`.
abbrev pub Stands : Bytes → Item → List Item → Type 0
Stands name x xs = first_match (has_name name) xs ≡ some x

pub head_match :
    (test : Item → Bool) (z : Item) (xs : List Item) (x : Item)
    → test z ≡ true
    → first_match test (z ∷ xs) ≡ some x
    → z ≡ x
unfolding first_match
head_match test z xs x hit e = ground (arith, hit)

pub below :
    (test : Item → Bool) (z : Item) (xs : List Item) (x : Item)
    → test z ≡ false
    → first_match test (z ∷ xs) ≡ some x
    → first_match test xs ≡ some x
unfolding first_match
below test z xs x miss e = ground (arith, miss)

pub Stands-remove_first :
    (name : Bytes) (x y : Item) (test : Item → Bool) (xs : List Item)
    → x ≢ y
    → first_match test xs ≡ some y
    → Stands name x xs
    → Stands name x (remove_first test xs)
unfolding first_match remove_first
Stands-remove_first name x y test [] ne m h = h
Stands-remove_first name x y test (z ∷ xs) ne m h =
    ground (arith, Stands-remove_first name x y test xs ne)

pub Stands-drop_last :
    (name : Bytes) (x y : Item) (xs : List Item)
    → x ≢ y
    → last_item xs ≡ some y
    → Stands name x xs
    → Stands name x (drop_last xs)
unfolding first_match last_item drop_last
Stands-drop_last name x y [] ne m h = h
Stands-drop_last name x y (z ∷ []) ne m h = ground arith
Stands-drop_last name x y (z ∷ w ∷ xs) ne m h =
    ground (arith, Stands-drop_last name x y (w ∷ xs) ne)

pub Stands-update_first :
    (name : Bytes) (x y : Item) (test : Item → Bool) (f : Item → Item) (xs : List Item)
    → ((z : Item) → has_name name (f z) ≡ has_name name z)
    → x ≢ y
    → first_match test xs ≡ some y
    → Stands name x xs
    → Stands name x (update_first test f xs)
unfolding first_match update_first
Stands-update_first name x y test f [] keep ne m h = h
Stands-update_first name x y test f (z ∷ xs) keep ne m h =
    ground (arith, keep z, Stands-update_first name x y test f xs keep ne)

pub Stands-update :
    (name : Bytes) (x : Item) (test : Item → Bool) (f : Item → Item) (xs : List Item)
    → ((z : Item) → has_name name (f z) ≡ has_name name z)
    → Stands name x xs
    → Stands name x (update_first test f xs) ⊎ Stands name (f x) (update_first test f xs)
unfolding first_match update_first
Stands-update name x test f [] keep h = inl h
Stands-update name x test f (z ∷ xs) keep h = elim (Bool-cases (has_name name z)) [
  | inl named ↦ elim (Bool-cases (test z)) [
    | inl hit ↦ inr (
        rw hit
          (rw (keep z ∙ named) (ap (λ w. some (f w)) (head_match (has_name name) z xs x named h))))
    | inr miss ↦ inl (rw (miss, named) (ap some (head_match (has_name name) z xs x named h)))
  ]
  | inr other ↦ elim (Bool-cases (test z)) [
    | inl hit ↦ inl (rw hit (rw (keep z ∙ other) (below (has_name name) z xs x other h)))
    | inr miss ↦
        rw (miss, other)
          (Stands-update name x test f xs keep (below (has_name name) z xs x other h))
  ]
]

-- The same for a test that the item itself fails.
pub Stands-update_other :
    (name : Bytes) (x : Item) (test : Item → Bool) (f : Item → Item) (xs : List Item)
    → ((z : Item) → has_name name (f z) ≡ has_name name z)
    → test x ≡ false
    → Stands name x xs
    → Stands name x (update_first test f xs)
unfolding first_match update_first
Stands-update_other name x test f [] keep miss h = h
Stands-update_other name x test f (z ∷ xs) keep miss h =
    ground (arith, keep z, Stands-update_other name x test f xs keep miss)

pub Stands-remove_other :
    (name : Bytes) (x : Item) (test : Item → Bool) (xs : List Item)
    → test x ≡ false
    → Stands name x xs
    → Stands name x (remove_first test xs)
unfolding first_match remove_first
Stands-remove_other name x test [] miss h = h
Stands-remove_other name x test (z ∷ xs) miss h =
    ground (arith, Stands-remove_other name x test xs miss)

pub Stands-cons :
    (name : Bytes) (x z : Item) (xs : List Item)
    → has_name name z ≡ false
    → Stands name x xs
    → Stands name x (z ∷ xs)
unfolding first_match
Stands-cons name x z xs miss h = rw miss h

pub passes :
    (test : Item → Bool) (xs : List Item) (x : Item) → first_match test xs ≡ some x → test x ≡ true
unfolding first_match
passes test [] x e = ground arith
passes test (z ∷ xs) x e = ground (arith, passes test xs x)

-- An item of one name does not have another.
pub name_ne :
    (name other : Bytes) (x : Item)
    → has_name name x ≡ true
    → bytes_eq name other ≡ false
    → has_name other x ≡ false
unfolding has_name
name_ne name other x h ne = rw ((bytes_eq_iff x.file_name name).0 h) ne

pub bytes_ne : (a b : Bytes) → bytes_eq a b ≡ false → bytes_eq b a ≡ false
bytes_ne a b ne = elim (Bool-cases (bytes_eq b a)) [
  | inr differ ↦ differ
  | inl same ↦ absurd (
      let e = sym (bytes_eq_self a) ∙ ap (bytes_eq a) (sym ((bytes_eq_iff b a).0 same)) ∙ ne in
      ground arith)
]

pub Stands-head :
    (name : Bytes) (z : Item) (xs : List Item) → has_name name z ≡ true → Stands name z (z ∷ xs)
unfolding first_match
Stands-head name z xs hit = rw hit refl
