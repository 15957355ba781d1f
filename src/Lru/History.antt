-- ===== src/Lru/History.antt =====
-- Sequences of calls on a cache, from its construction on: the linked cache never meets undefined
-- behaviour and answers every call as its specification does.
use network_server.Base.{
  ℕ, ◌<◌, ◌^◌, ◌≡◌, ◌≢◌, refl, Bool, false, Option, none, some, List, [], ◌∷◌, ℤ, Bytes, arith, ok,
  pure, ◌>>=◌, ◌>>◌, if◌then◌else◌, ◌==◌, subst, Run, fault, out_of_fuel, exited,
}
use network_server.Lru.{
  Ptr, null, Item, FileCache, CacheCmd, make_cache, load, remove_item, unlock_item,
  get_and_lock_item, add_or_update_item, process_inotify_event,
}
use network_server.Lru.Spec.{Shelf}
use network_server.Lru.Spec
use network_server.Lru.Refines.{Refines}
use network_server.Lru.Refinement.{
  Handed, remove_item-Refines, unlock_item-Refines, get_and_lock_item-Refines,
  process_inotify_event-Refines,
}
use network_server.Lru.Adding.{Unused, add_or_update_item-Refines}

-- `fresh` is the address that a new node gets, `wd` its watch.
pub data Call : Type 0 where
  add_or_update_call : (fresh : Ptr) → (wd : ℤ) → (name : Bytes) → (buff : Ptr) → (len : ℕ) → Call
  get_and_lock_call unlock_call remove_call : (name : Bytes) → Call
  event_call : (event : Option (ℕ × ℤ)) → Call

-- What the caller sees: a flag, or the data of the item it is given.
pub data Answer : Type 0 where
  flag : Bool → Answer
  item : Option Item → Answer
  nothing : Answer

-- The item that a caller reads through the pointer it is given.
abbrev pub item_at : Ptr → CacheCmd (Option Item)
item_at p = if p == null then pure none else do n ← load p; pure (some n.item)

unfoldable pub run_call : Call → CacheCmd Answer
run_call (add_or_update_call fresh wd name buff len) = do
  b ← add_or_update_item fresh wd name buff len
  pure (flag b)
run_call (get_and_lock_call name) = do p ← get_and_lock_item name; x ← item_at p; pure (item x)
run_call (unlock_call name) = do unlock_item name; pure nothing
run_call (remove_call name) = do b ← remove_item name; pure (flag b)
run_call (event_call event) = do process_inotify_event event; pure nothing

unfoldable pub run_calls : List Call → CacheCmd (List Answer)
run_calls [] = pure []
run_calls (call ∷ calls) = do
  answer ← run_call call
  answers ← run_calls calls
  pure (answer ∷ answers)

-- The same calls of the specification.
unfoldable pub shelf_call : Call → Shelf → Shelf × Answer
shelf_call (add_or_update_call fresh wd name buff len) s =
    let (t, b) = Spec.add_or_update name buff len wd s in (t, flag b)
shelf_call (get_and_lock_call name) s = let (t, x) = Spec.get_and_lock name s in (t, item x)
shelf_call (unlock_call name) s = (Spec.unlock name s, nothing)
shelf_call (remove_call name) s = let (t, b) = Spec.remove name s in (t, flag b)
shelf_call (event_call event) s = (Spec.process_event event s, nothing)

unfoldable pub shelf_calls : List Call → Shelf → Shelf × List Answer
unfolding shelf_call
shelf_calls [] s = (s, [])
shelf_calls (call ∷ calls) s =
    let (t, answer) = shelf_call call s in
    let (u, answers) = shelf_calls calls t in (u, answer ∷ answers)

abbrev pub empty_shelf : ℕ → Shelf
empty_shelf size = record { items = []; limit = size; freed = []; unwatched = [] }

-- `new` returns an address, not null, at which no node of the cache lives at that time.
abbrev pub Allowed : Call → FileCache → Type 0
Allowed (add_or_update_call fresh wd name buff len) c = (fresh ≢ null) × Unused fresh c
Allowed _ c = Unit {0}

abbrev pub AllowedAfter : (FileCache → Type 0) → Run FileCache Answer → Type 0
AllowedAfter next (ok answer c) = next c
AllowedAfter next fault = Unit {0}
AllowedAfter next out_of_fuel = Unit {0}
AllowedAfter next (exited c) = Unit {0}

abbrev pub AllAllowed : List Call → FileCache → Type 0
AllAllowed [] c = Unit {0}
AllAllowed (call ∷ calls) c = Allowed call c × AllowedAfter (AllAllowed calls) (run_call call c)

ne_null : (p : Ptr) → p ≢ null → (p == null) ≡ false
ne_null p ne = ground arith

item_at-Handed : (c : FileCache) (p : Ptr) (o : Option Item) → Handed c p o → item_at p c ≡ ok o c
unfolding load
item_at-Handed c p none h = rw h refl
item_at-Handed c p (some x) (ne, (n, holds, same)) = ground (arith, ne_null p ne, holds, same)

pub run_call-Refines :
    (call : Call) (c : FileCache) (s : Shelf)
    → Refines c s
    → Allowed call c
    → (c' : FileCache) × (run_call call c ≡ ok (shelf_call call s).1 c')
      × Refines c' (shelf_call call s).0
unfolding run_call shelf_call
run_call-Refines (add_or_update_call fresh wd name buff len) c s r (ne, unused) =
    let (c', e, r') = add_or_update_item-Refines fresh wd name buff len ne c s r unused in
    (c', rw e refl, r')
run_call-Refines (get_and_lock_call name) c s r _ =
    let (p, c', e, r', h) = get_and_lock_item-Refines name c s r in
    (c', rw (e, item_at-Handed c' p (Spec.get_and_lock name s).1 h) refl, r')
run_call-Refines (unlock_call name) c s r _ =
    let (c', e, r') = unlock_item-Refines name c s r in (c', rw e refl, r')
run_call-Refines (remove_call name) c s r _ =
    let (c', e, r') = remove_item-Refines name c s r in (c', rw e refl, r')
run_call-Refines (event_call event) c s r _ =
    let (c', e, r') = process_inotify_event-Refines event c s r in (c', rw e refl, r')

run_calls-Refines :
    (calls : List Call) (c : FileCache) (s : Shelf)
    → Refines c s
    → AllAllowed calls c
    → (c' : FileCache) × (run_calls calls c ≡ ok (shelf_calls calls s).1 c')
      × Refines c' (shelf_calls calls s).0
unfolding run_calls shelf_calls
run_calls-Refines [] c s r _ = (c, refl, r)
run_calls-Refines (call ∷ calls) c s r (now, later) =
    let (c', e, r') = run_call-Refines call c s r now in
    let (d, f, r'') =
      run_calls-Refines calls c' (shelf_call call s).0 r'
        (subst (AllowedAfter (AllAllowed calls)) e later) in
    (d, rw (e, f) refl, r'')

pub make_cache-Refines :
    (size : ℕ) (inotify_fd : ℤ)
    → size < 2 ^ 64
    → Refines (make_cache size inotify_fd) (empty_shelf size)
unfolding make_cache
make_cache-Refines size inotify_fd small = record {
  cells = [];
  rep = record {
    nodes = λ q. refl;
    head = refl;
    tail = refl;
    count = refl;
    distinct = tt;
    within = omega arith;
    small = small;
  };
  same_items = refl;
  same_limit = refl;
  same_freed = refl;
  same_unwatched = refl;
}

-- On a new cache whose limit is a `size_t` every sequence of calls ends without undefined behaviour,
-- with the answers of the specification, if each node is allocated at an address that is not null
-- and holds no node at that time; it may be the address of the node that the same call has evicted.
pub history-Refines :
    (size : ℕ) (inotify_fd : ℤ) (calls : List Call)
    → size < 2 ^ 64
    → AllAllowed calls (make_cache size inotify_fd)
    → (c : FileCache) × (run_calls calls (make_cache size inotify_fd)
        ≡ ok (shelf_calls calls (empty_shelf size)).1 c)
      × Refines c (shelf_calls calls (empty_shelf size)).0
history-Refines size inotify_fd calls small allowed =
    run_calls-Refines calls (make_cache size inotify_fd) (empty_shelf size)
      (make_cache-Refines size inotify_fd small) allowed
