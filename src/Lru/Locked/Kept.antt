-- ===== src/Lru/Locked/Kept.antt =====
-- What a locked item keeps, and the operations of the specification that keep it.
use network_server.Base.{
  ℕ, ◌-◌, ◌<◌, ◌^◌, ◌≡◌, ◌≢◌, inl, inr, refl, sym, ◌∙◌, ap, Bool, true, false, Option, none, some,
  ℤ, Bytes, arith, if◌then◌else◌, ◌==◌, Bool-cases, Option-cases, ==_iff, bytes_eq, bytes_eq_iff,
  subst, ltb, length,
}
use network_server.Lru.{Item, has_name, holds_lock, same_watch, new_item}
use network_server.Lru.Spec.{
  Shelf, first_match, remove_first, update_first, last_item, drop_last, lock, mark_outdated,
}
use network_server.Lru.Spec
use network_server.Lru.Locked.Matches.{
  Stands, Stands-remove_first, Stands-drop_last, Stands-update_first, Stands-update,
  Stands-update_other, Stands-remove_other, Stands-cons, Stands-head, passes, name_ne, bytes_ne,
}

-- The first item of this name has a lock, and these are its data.
pub record Held (name : Bytes) (b n : ℕ) (s : Shelf) : Type 0 where
  pub item : Item
  pub stands : Stands name item s.items
  pub locked : item.num_locks ≢ 0
  pub same_buff : item.buff ≡ b
  pub same_length : item.buff_length ≡ n

unlocked_ne : (x y : Item) → x.num_locks ≢ 0 → (y.num_locks == 0) ≡ true → x ≢ y
unlocked_ne x y locked free e = locked (ap (λ z. z.num_locks) e ∙ (==_iff y.num_locks 0).0 free)

module _ (name : Bytes) (b n : ℕ) where
  pub on_items : (s t : Shelf) (h : Held name b n s) → Stands name h.item t.items → Held name b n t
  on_items s t h stands = record {
    item = h.item;
    stands = stands;
    locked = h.locked;
    same_buff = h.same_buff;
    same_length = h.same_length;
  }

  pub remove_match-Held :
      (test : Item → Bool) (s : Shelf)
      → Held name b n s
      → Held name b n (Spec.remove_match test s).0
  unfolding Spec.remove_match Spec.discard
  remove_match-Held test s h = elim (Option-cases (first_match test s.items)) [
    | inl none_found ↦ rw (none_found, Spec.remove_match) h
    | inr (y, found) ↦
        rw (found, Spec.remove_match)
          (elim (Bool-cases (y.num_locks == 0)) [
            | inl free ↦ rw free (
                on_items s _ h (
                  Stands-remove_first name h.item y test s.items
                    (unlocked_ne h.item y h.locked free) found h.stands))
            | inr held ↦ rw held h
          ])
  ]

  pub process_event-Held :
      (event : Option (ℕ × ℤ)) (s : Shelf)
      → Held name b n s
      → Held name b n (Spec.process_event event s)
  unfolding Spec.process_event mark_outdated has_name
  process_event-Held none s h = h
  process_event-Held (some (mask, wd)) s h = elim (Bool-cases (mask == 0)) [
    | inl quiet ↦ rw quiet h
    | inr fired ↦ rw fired (
        remove_match-Held (same_watch wd) _
          (elim (Stands-update name h.item (same_watch wd) mark_outdated s.items (λ z. refl)
            h.stands) [
              | inl stands ↦ on_items s _ h stands
              | inr stands ↦ record {
                item = mark_outdated h.item;
                stands = stands;
                locked = h.locked;
                same_buff = h.same_buff;
                same_length = h.same_length;
              }
            ]))
  ]

  pub unlock-Held :
      (other : Bytes) (s : Shelf)
      → bytes_eq name other ≡ false
      → Held name b n s
      → Held name b n (Spec.unlock other s)
  unfolding Spec.unlock holds_lock has_name
  unlock-Held other s ne h = on_items s _ h (
      Stands-update_other name h.item (holds_lock other) _ s.items (λ z. refl)
        (rw (name_ne name other h.item (passes (has_name name) s.items h.item h.stands) ne) refl)
        h.stands)

  evict-Held :
      (new : Item) (s : Shelf)
      → has_name name new ≡ false
      → Held name b n s
      → Held name b n (Spec.evict_and_add new s).0
  unfolding Spec.evict_and_add Spec.discard
  evict-Held new s ne h = elim (Option-cases (last_item s.items)) [
    | inl empty ↦ rw (empty, Spec.evict_and_add) h
    | inr (y, found) ↦
        rw (found, Spec.evict_and_add)
          (elim (Bool-cases (y.num_locks == 0)) [
            | inl free ↦ rw free (
                on_items s _ h (
                  Stands-cons name h.item new _ ne (
                    Stands-drop_last name h.item y s.items (unlocked_ne h.item y h.locked free)
                      found h.stands)))
            | inr held ↦ rw held h
          ])
  ]

  absent_ne :
      (other : Bytes) (s : Shelf)
      → Held name b n s
      → first_match (has_name other) s.items ≡ none
      → bytes_eq other name ≡ false
  absent_ne other s h absent = elim (Bool-cases (bytes_eq other name)) [
    | inr differ ↦ differ
    | inl same ↦ absurd (
        let e =
          subst (λ m. first_match (has_name m) s.items ≡ none) ((bytes_eq_iff other name).0 same)
            absent in
        let no = sym e ∙ h.stands in ground arith)
  ]

  pub add_or_update-Held :
      (other : Bytes) (buff len : ℕ) (wd : ℤ) (s : Shelf)
      → Held name b n s
      → Held name b n (Spec.add_or_update other buff len wd s).0
  unfolding Spec.add_or_update new_item has_name
  add_or_update-Held other buff len wd s h =
      elim (Option-cases (first_match (has_name other) s.items)) [
        | inl absent ↦
            let new = new_item other buff len wd in
            let ne : has_name name new ≡ false = absent_ne other s h absent in
            rw (absent, Spec.add_or_update)
              (elim (Bool-cases (ltb (length s.items) s.limit)) [
                | inl room ↦
                    rw room (on_items s _ h (Stands-cons name h.item new s.items ne h.stands))
                | inr full ↦ rw full (evict-Held new s ne h)
              ])
        | inr (y, found) ↦
            rw (found, Spec.add_or_update)
              (elim (Bool-cases (y.num_locks == 0)) [
                | inl free ↦ rw free (
                    on_items s _ h (
                      Stands-update_first name h.item y (has_name other) _ s.items (λ z. refl)
                        (unlocked_ne h.item y h.locked free) found h.stands))
                | inr held ↦ rw held h
              ])
      ]

  pick :
      (test : Bool) (l r : Shelf × Option Item)
      → Held name b n l.0
      → Held name b n r.0
      → Held name b n (if test then l else r).0
  pick true l r hl hr = hl
  pick false l r hl hr = hr

  pub lock_other :
      (other : Bytes) (s : Shelf)
      → bytes_eq name other ≡ false
      → Held name b n s
      → Held name b n (Spec.get_and_lock other s).0
  unfolding Spec.get_and_lock lock has_name
  lock_other other s ne h = elim (Option-cases (first_match (has_name other) s.items)) [
    | inl absent ↦ rw (absent, Spec.get_and_lock) h
    | inr (y, found) ↦
        rw (found, Spec.get_and_lock)
          (pick y.outdated _ _ (remove_match-Held (has_name other) s h) (
            on_items s _ h (
              Stands-cons name h.item (lock y) _
                (name_ne other name y (passes (has_name other) s.items y found)
                  (bytes_ne name other ne))
                (Stands-remove_other name h.item (has_name other) s.items
                  (name_ne name other h.item (passes (has_name name) s.items h.item h.stands) ne)
                  h.stands))))
  ]

  pub lock_same :
      (s : Shelf) (h : Held name b n s)
      → h.item.num_locks < 2 ^ 64 - 1
      → Held name b n (Spec.get_and_lock name s).0
  unfolding Spec.get_and_lock lock has_name
  lock_same s h small =
      rw (h.stands, Spec.get_and_lock)
        (pick h.item.outdated _ _ (remove_match-Held (has_name name) s h) record {
          item = lock h.item;
          stands =
              Stands-head name (lock h.item) _ (passes (has_name name) s.items h.item h.stands);
          locked = λ e. omega arith;
          same_buff = h.same_buff;
          same_length = h.same_length;
        })
