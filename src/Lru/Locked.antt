-- ===== src/Lru/Locked.antt =====
-- An item that a caller has locked stays: no call but its own unlock takes it, or changes its data.
pub mod Matches
mod Kept
use network_server.Base.{
  ok, ◌>>◌, ℕ, ◌+◌, ◌-◌, ◌<◌, ◌^◌, ◌%◌, ◌≡◌, ◌≢◌, ◌⊎◌, inl, inr, refl, sym, ◌∙◌, ap, Bool, true,
  false, not, ◌&&◌, Option, none, some, List, [], ◌∷◌, ℤ, Bytes, arith, if◌then◌else◌, ◌==◌,
  Bool-cases, Option-cases, ==_iff, bytes_eq, bytes_eq_iff, bytes_eq_self, subst, sub_size,
  add_size, ltb, length,
}
use network_server.Lru.{
  FileCache, get_and_lock_item, unlock_item, Ptr, Item, has_name, holds_lock, same_watch, new_item,
}
use network_server.Lru.Spec.{
  Shelf, first_match, remove_first, update_first, last_item, drop_last, lock, mark_outdated,
}
use network_server.Lru.Spec
use network_server.Lru.Refines.{Refines}
use network_server.Lru.Refinement.{get_and_lock_item-Refines, unlock_item-Refines}
use network_server.Lru.History.{
  Allowed, run_call, run_call-Refines, Call, add_or_update_call, get_and_lock_call, unlock_call,
  remove_call, event_call, shelf_call,
}
use network_server.Lru.Locked.Matches.{
  Stands, Stands-remove_first, Stands-drop_last, Stands-update_first, Stands-update,
  Stands-update_other, Stands-remove_other, Stands-cons, Stands-head, passes, name_ne, bytes_ne,
}
pub use Kept.{Held}
use network_server.Lru.Locked.Kept.{
  on_items, remove_match-Held, process_event-Held, unlock-Held, add_or_update-Held, lock_other,
  lock_same,
}

-- Every call but an unlock of this name.
abbrev pub Spares : Bytes → Call → Type 0
Spares name (unlock_call other) = bytes_eq name other ≡ false
Spares name _ = Unit {0}

shelf_call-Held :
    (name : Bytes) (b n : ℕ) (call : Call) (s : Shelf) (h : Held name b n s)
    → Spares name call
    → h.item.num_locks < 2 ^ 64 - 1
    → Held name b n (shelf_call call s).0
unfolding shelf_call Spec.remove
shelf_call-Held name b n (add_or_update_call fresh wd other buff len) s h spares small =
    add_or_update-Held name b n other buff len wd s h
shelf_call-Held name b n (get_and_lock_call other) s h spares small =
    elim (Bool-cases (bytes_eq name other)) [
      | inl same ↦
          subst (λ m. Held name b n (Spec.get_and_lock m s).0) ((bytes_eq_iff name other).0 same)
            (lock_same name b n s h small)
      | inr differ ↦ lock_other name b n other s differ h
    ]
shelf_call-Held name b n (unlock_call other) s h spares small =
    unlock-Held name b n other s spares h
shelf_call-Held name b n (remove_call other) s h spares small =
    remove_match-Held name b n (has_name other) s h
shelf_call-Held name b n (event_call event) s h spares small = process_event-Held name b n event s h

current_shelf :
    (test : Bool) (l r : Shelf × Option Item) → test ≡ false → (if test then l else r).0 ≡ r.0
current_shelf true l r e = ground arith
current_shelf false l r e = refl

-- What `get_and_lock` does with an item that is not outdated.
get_and_lock-current :
    (name : Bytes) (s : Shelf) (x : Item)
    → first_match (has_name name) s.items ≡ some x
    → x.outdated ≡ false
    → (Spec.get_and_lock name s).0
      ≡ record s { items = lock x ∷ remove_first (has_name name) s.items }
unfolding Spec.get_and_lock
get_and_lock-current name s x found current =
    rw (found, Spec.get_and_lock) (current_shelf x.outdated _ _ current)

unlock-lock :
    (name : Bytes) (x : Item) (xs : List Item)
    → has_name name x ≡ true
    → x.num_locks < 2 ^ 64 - 1
    → update_first
        (holds_lock name)
        (λ y. record y { num_locks = sub_size y.num_locks 1 })
        (lock x ∷ xs)
      ≡ x ∷ xs
unfolding update_first holds_lock has_name lock
unlock-lock name x xs named small =
    let held : ((x.num_locks + 1) % 2 ^ 64 == 0) ≡ false = ground arith in
    let back : ((x.num_locks + 1) % 2 ^ 64 + 2 ^ 64 - 1) % 2 ^ 64 ≡ x.num_locks = omega arith in
    rw (named, held) (ap (λ n. record x { num_locks = n } ∷ xs) back)

pub unlock-get_and_lock :
    (name : Bytes) (s : Shelf) (x : Item)
    → first_match (has_name name) s.items ≡ some x
    → x.outdated ≡ false
    → x.num_locks < 2 ^ 64 - 1
    → Spec.unlock name (Spec.get_and_lock name s).0
      ≡ record s { items = x ∷ remove_first (has_name name) s.items }
unfolding Spec.unlock
unlock-get_and_lock name s x found current small =
    rw (get_and_lock-current name s x found current) (
      ap (λ xs. record s { items = xs })
        (unlock-lock name x _ (passes (has_name name) s.items x found) small))

-- An item that has a lock stays in the cache, with its buffer and length and a lock, through every
-- call that does not unlock its name, if its count of locks is below the largest `size_t`. An add
-- allocates its node at an address that is not null and holds no node at that time.
pub run_call-Held :
    (name : Bytes) (b n : ℕ) (call : Call) (c : FileCache) (s : Shelf)
    → Refines c s
    → (h : Held name b n s) → Allowed call c
    → Spares name call
    → h.item.num_locks < 2 ^ 64 - 1
    → (c' : FileCache) × (s' : Shelf) × (run_call call c ≡ ok (shelf_call call s).1 c')
      × Refines c' s'
      × Held name b n s'
run_call-Held name b n call c s r h allowed spares small =
    let (c', e, r') = run_call-Refines call c s r allowed in
    (c', (shelf_call call s).0, e, r', shelf_call-Held name b n call s h spares small)

-- A lock and its unlock leave an item that is not outdated as it was, at the front of the cache, if
-- its count of locks is below the largest `size_t`.
pub unlock_item-get_and_lock_item :
    (name : Bytes) (c : FileCache) (s : Shelf) (x : Item)
    → Refines c s
    → first_match (has_name name) s.items ≡ some x
    → x.outdated ≡ false
    → x.num_locks < 2 ^ 64 - 1
    → (c' : FileCache) × ((do get_and_lock_item name; unlock_item name) c ≡ ok tt c')
      × Refines c' (record s { items = x ∷ remove_first (has_name name) s.items })
unlock_item-get_and_lock_item name c s x r found current small =
    let (p, d, e, locked, h) = get_and_lock_item-Refines name c s r in
    let (c', f, unlocked) = unlock_item-Refines name d (Spec.get_and_lock name s).0 locked in
    (
      c',
      rw (e, f) refl,
      subst (Refines c') (unlock-get_and_lock name s x found current small) unlocked,
    )
