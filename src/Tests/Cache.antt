-- ===== src/Tests/Cache.antt =====
-- The file cache on small inputs.
use network_server.Base.{
  inl, inr, ◌>>◌, ◌≡◌, ◌≢◌, refl, true, false, none, some, List, [], ◌∷◌, arith, pos, Bytes, codes,
  ok, bytes_eq, int_eq,
}
use network_server.Lru.{
  Ptr, null, Item, FileCache, make_cache, load, store, has_name, holds_lock, same_watch, get_item,
  find_node, remove_node, remove_item, add_front, new_item, add_or_update, add_or_update_item,
  promote, get_and_lock_item, unlock_item, process_inotify_event, destroy,
}
use network_server.Lru.Spec.{Shelf, first_match, remove_first, update_first}
use network_server.Lru.Spec
use network_server.Lru.Cells.{Cells, denote}
use network_server.Lru.Refines.{Refines}
use network_server.Lru.History.{
  Call, add_or_update_call, get_and_lock_call, unlock_call, remove_call, event_call, flag, item,
  nothing, run_call, run_calls, shelf_call, shelf_calls, empty_shelf, AllAllowed, history-Refines,
}
use network_server.Lru.Locked.{Held, run_call-Held, unlock_item-get_and_lock_item}
use network_server.Lru.Refinement.{Handed, get_and_lock_item-Refines, process_inotify_event-Refines}
use network_server.Lru.Adding.{add_or_update_item-Refines}
use network_server.Lru.Destroy.{destroy-Refines, buffers, watches}

abbrev file_a : Bytes
file_a = codes "a"

abbrev file_b : Bytes
file_b = codes "b"

abbrev file_c : Bytes
file_c = codes "c"

-- A cache of two: `a` is locked, so `b` makes way for `c`, whose
-- node gets the address of the one of `b`; a change of `a` is marked, as it is in
-- use, and the next request for it misses.
abbrev calls : List Call
calls =
    add_or_update_call 100 (pos 1) file_a 10 3
    ∷ add_or_update_call 101 (pos 2) file_b 11 4
    ∷ get_and_lock_call file_a
    ∷ add_or_update_call 101 (pos 3) file_c 12 5
    ∷ event_call (some (2, pos 1))
    ∷ unlock_call file_a
    ∷ get_and_lock_call file_a
    ∷ remove_call file_b
    ∷ []

calls-AllAllowed : AllAllowed calls (make_cache 2 (pos 9))
unfolding run_call add_or_update_item add_or_update get_item find_node load store add_front
    remove_node remove_item promote get_and_lock_item unlock_item process_inotify_event has_name
    holds_lock same_watch make_cache new_item bytes_eq int_eq
calls-AllAllowed = (
  ((λ e. ground arith), inl refl),
  (
    ((λ e. ground arith), inl refl),
    (tt, (((λ e. ground arith), inr (omega arith, refl)), (tt, (tt, (tt, (tt, tt)))))),
  ),
)

history-Refines_example :
    (c : FileCache) × (run_calls calls (make_cache 2 (pos 9))
      ≡ ok (shelf_calls calls (empty_shelf 2)).1 c)
    × Refines c (shelf_calls calls (empty_shelf 2)).0
history-Refines_example = history-Refines 2 (pos 9) calls (omega arith) calls-AllAllowed

-- The answers: the flags of the two new files, the locked item, the flag of the third file, and a
-- miss for the file that changed.
calls_answers :
    (shelf_calls calls (empty_shelf 2)).1
    ≡ flag true
      ∷ flag true
      ∷ item (some (Spec.lock (new_item file_a 10 3 (pos 1))))
      ∷ flag true
      ∷ nothing
      ∷ nothing
      ∷ item none
      ∷ flag true
      ∷ []
unfolding shelf_calls Spec.add_or_update Spec.evict_and_add Spec.last_item Spec.drop_last
    Spec.discard Spec.get_and_lock Spec.unlock Spec.remove Spec.remove_match Spec.process_event
    Spec.mark_outdated first_match remove_first update_first Spec.lock has_name holds_lock
    same_watch new_item bytes_eq int_eq
calls_answers = refl

-- Two files, the first one locked.
abbrev item_a : Item
item_a = record {
  num_locks = 1;
  buff = 10;
  buff_length = 3;
  file_name = file_a;
  watch = pos 1;
  outdated = false;
}

abbrev item_b : Item
item_b = record {
  num_locks = 0;
  buff = 11;
  buff_length = 4;
  file_name = file_b;
  watch = pos 2;
  outdated = false;
}

abbrev two_cells : Cells
two_cells = (100, item_a) ∷ (101, item_b) ∷ []

abbrev two_items : FileCache
two_items = record {
  head = 100;
  tail = 101;
  num_items = 2;
  max_num_items = 2;
  nodes = denote null two_cells null;
  freed = [];
  unwatched = [];
  inotify_fd = pos 9;
  closed = [];
}

abbrev two_shelf : Shelf
two_shelf = record { items = item_a ∷ item_b ∷ []; limit = 2; freed = []; unwatched = [] }

two_items-Refines : Refines two_items two_shelf
two_items-Refines = record {
  cells = two_cells;
  rep = record {
    nodes = λ q. refl;
    head = refl;
    tail = refl;
    count = refl;
    distinct = ((λ e. ground arith), refl, ((λ e. ground arith), refl, tt));
    within = omega arith;
    small = omega arith;
  };
  same_items = refl;
  same_limit = refl;
  same_freed = refl;
  same_unwatched = refl;
}

add_or_update_item-Refines_example :
    (c' : FileCache) × (add_or_update_item 101 (pos 3) file_c 12 5 two_items
      ≡ ok (Spec.add_or_update file_c 12 5 (pos 3) two_shelf).1 c')
    × Refines c' (Spec.add_or_update file_c 12 5 (pos 3) two_shelf).0
add_or_update_item-Refines_example =
    add_or_update_item-Refines 101 (pos 3) file_c 12 5 (λ e. ground arith) two_items two_shelf
      two_items-Refines (inr (omega arith, refl))

get_and_lock_item-Refines_example :
    (p : Ptr) × (c' : FileCache) × (get_and_lock_item file_b two_items ≡ ok p c')
    × Refines c' (Spec.get_and_lock file_b two_shelf).0
    × Handed c' p (Spec.get_and_lock file_b two_shelf).1
get_and_lock_item-Refines_example =
    get_and_lock_item-Refines file_b two_items two_shelf two_items-Refines

process_inotify_event-Refines_example :
    (c' : FileCache) × (process_inotify_event (some (2, pos 1)) two_items ≡ ok tt c')
    × Refines c' (Spec.process_event (some (2, pos 1)) two_shelf)
process_inotify_event-Refines_example =
    process_inotify_event-Refines (some (2, pos 1)) two_items two_shelf two_items-Refines

destroy-Refines_example :
    (c' : FileCache) × (destroy two_items ≡ ok tt c')
    × ((q : Ptr) → c'.nodes q ≡ none)
    × (c'.freed ≡ buffers two_shelf.items two_shelf.freed)
    × (c'.unwatched ≡ watches two_shelf.items two_shelf.unwatched)
    × (c'.head ≡ null)
    × (c'.tail ≡ null)
    × (c'.num_items ≡ 0)
    × (c'.closed ≡ pos 9 ∷ [])
destroy-Refines_example = destroy-Refines two_items two_shelf two_items-Refines

a_first : first_match (has_name file_a) two_shelf.items ≡ some item_a
unfolding first_match has_name bytes_eq
a_first = refl

a_locked : item_a.num_locks ≢ 0
a_locked e = ground arith

abbrev a_held : Held file_a 10 3 two_shelf
a_held = record {
  item = item_a;
  stands = a_first;
  locked = a_locked;
  same_buff = refl;
  same_length = refl;
}

run_call-Held_example :
    (c' : FileCache) × (s' : Shelf) × (run_call
        (add_or_update_call 101 (pos 3) file_c 12 5)
        two_items
      ≡ ok (shelf_call (add_or_update_call 101 (pos 3) file_c 12 5) two_shelf).1 c')
    × Refines c' s'
    × Held file_a 10 3 s'
run_call-Held_example =
    run_call-Held file_a 10 3 (add_or_update_call 101 (pos 3) file_c 12 5) two_items two_shelf
      two_items-Refines a_held ((λ e. ground arith), inr (omega arith, refl)) tt (omega arith)

unlock_item-get_and_lock_item_example :
    (c' : FileCache) × ((do get_and_lock_item file_a; unlock_item file_a) two_items ≡ ok tt c')
    × Refines c'
        (record two_shelf { items = item_a ∷ remove_first (has_name file_a) two_shelf.items })
unlock_item-get_and_lock_item_example =
    unlock_item-get_and_lock_item file_a two_items two_shelf item_a two_items-Refines a_first refl
      (omega arith)
