-- ===== src/Lru/Spec.antt =====
-- What the cache promises, with no addresses: a list of items, the most recently used in front,
-- no longer than the limit; `freed` and `unwatched` are the buffers and watches given back.
use network_server.Base.{
  ℕ, Bool, true, false, Option, none, some, List, [], ◌∷◌, ltb, ◌==◌, if◌then◌else◌, ℤ, add_size,
  sub_size, Bytes, length,
}
use network_server.Lru.{Ptr, Item, new_item, has_name, holds_lock, same_watch}

pub record Shelf : Type 0 where
  pub items : List Item
  pub limit : ℕ
  pub freed : List Ptr
  pub unwatched : List ℤ

unfoldable pub first_match : (Item → Bool) → List Item → Option Item
first_match test [] = none
first_match test (x ∷ xs) = if test x then some x else first_match test xs

unfoldable pub remove_first : (Item → Bool) → List Item → List Item
remove_first test [] = []
remove_first test (x ∷ xs) = if test x then xs else x ∷ remove_first test xs

unfoldable pub update_first : (Item → Bool) → (Item → Item) → List Item → List Item
update_first test f [] = []
update_first test f (x ∷ xs) = if test x then f x ∷ xs else x ∷ update_first test f xs

unfoldable pub last_item : List Item → Option Item
last_item [] = none
last_item (x ∷ []) = some x
last_item (x ∷ y ∷ xs) = last_item (y ∷ xs)

unfoldable pub drop_last : List Item → List Item
drop_last [] = []
drop_last (x ∷ []) = []
drop_last (x ∷ y ∷ xs) = x ∷ drop_last (y ∷ xs)

-- An unlocked item leaves the shelf: its buffer is freed and its watch removed.
unfoldable pub discard : Item → List Item → Shelf → Shelf
discard x rest s = record s {
  items = rest;
  freed = x.buff ∷ s.freed;
  unwatched = x.watch ∷ s.unwatched;
}

unfoldable pub remove_match : (Item → Bool) → Shelf → Shelf × Bool
unfolding discard
remove_match test s = elim (first_match test s.items) [
  | none ↦ (s, true)
  | some x ↦
      if x.num_locks == 0 then (discard x (remove_first test s.items) s, true) else (s, false)
]

unfoldable pub remove : Bytes → Shelf → Shelf × Bool
remove name = remove_match (has_name name)

unfoldable pub lock : Item → Item
lock x = record x { num_locks = add_size x.num_locks 1 }

unfoldable pub get_and_lock : Bytes → Shelf → Shelf × Option Item
get_and_lock name s = elim (first_match (has_name name) s.items) [
  | none ↦ (s, none)
  | some x ↦
      if x.outdated
      then ((remove_match (has_name name) s).0, none)
      else (record s { items = lock x ∷ remove_first (has_name name) s.items }, some (lock x))
]

unfoldable pub unlock : Bytes → Shelf → Shelf
unlock name s = record s {
  items =
      update_first (holds_lock name) (λ x. record x { num_locks = sub_size x.num_locks 1 }) s.items;
}

unfoldable pub evict_and_add : Item → Shelf → Shelf × Bool
evict_and_add new s = elim (last_item s.items) [
  | none ↦ (s, false)
  | some x ↦
      if x.num_locks == 0
      then (let t = discard x (drop_last s.items) s in record t { items = new ∷ t.items }, true)
      else (s, false)
]

unfoldable pub add_or_update : Bytes → Ptr → ℕ → ℤ → Shelf → Shelf × Bool
add_or_update name buff len wd s = elim (first_match (has_name name) s.items) [
  | some x ↦
      if x.num_locks == 0
      then (
        record s {
          items =
              update_first (has_name name) (λ y. record y { buff = buff; buff_length = len })
                s.items;
          freed = x.buff ∷ s.freed;
        },
        true,
      )
      else (s, false)
  | none ↦
      if ltb (length s.items) s.limit
      then (record s { items = new_item name buff len wd ∷ s.items }, true)
      else evict_and_add (new_item name buff len wd) s
]

unfoldable pub mark_outdated : Item → Item
mark_outdated x = record x { outdated = true }

-- The item of a changed file is dropped, or marked if it is in use.
unfoldable pub process_event : Option (ℕ × ℤ) → Shelf → Shelf
process_event none s = s
process_event (some (mask, wd)) s =
    if mask == 0
    then s
    else (remove_match (same_watch wd)
        (record s { items = update_first (same_watch wd) mark_outdated s.items })).0
