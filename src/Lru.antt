-- ===== src/Lru.antt =====
-- header/lru.hpp and src/lru.cpp: the file cache, a doubly linked list of nodes at addresses.
-- `fresh` is the address that `new` returns and `wd` the answer of `inotify_add_watch`.
pub mod Cells
pub mod Destroy
pub mod History
pub mod Locked
pub mod Find
pub mod Add
pub mod Refinement
pub mod Refines
pub mod Adding
pub mod Promote
pub mod Remove
pub mod Unlink
pub mod Spec
use network_server.Base.{
  ℕ, zero, suc, ◌+◌, Bool, true, false, not, ◌&&◌, Option, none, some, List, [], ◌∷◌, ltb, ◌==◌,
  if◌then◌else◌, ℤ, int_eq, add_size, sub_size, Bytes, bytes_eq, Cmd, ok, fault, out_of_fuel, pure,
  ◌>>=◌, ◌>>◌, read, modify, or_fault,
}

abbrev pub Ptr : Type 0
Ptr = ℕ

abbrev pub null : Ptr
null = 0

-- The members of an `item_node` that are not links, those of its `item_data` included.
pub record Item : Type 0 where
  pub num_locks : ℕ
  pub buff : Ptr
  pub buff_length : ℕ
  pub file_name : Bytes
  pub watch : ℤ
  pub outdated : Bool

pub record ItemNode : Type 0 where
  pub next : Ptr
  pub prev : Ptr
  pub item : Item
  pub open item use *

-- `lru_file_cache`. `nodes` is the part of the heap that holds its nodes; `freed` and `unwatched`
-- list the buffers handed to FREE and the watches removed, and `closed` the descriptors closed, newest
-- first. No method locks the mutex `m`; only `print_stats`, which prints, does.
pub record FileCache : Type 0 where
  pub head : Ptr
  pub tail : Ptr
  pub num_items : ℕ
  pub max_num_items : ℕ
  pub nodes : Ptr → Option ItemNode
  pub freed : List Ptr
  pub unwatched : List ℤ
  pub inotify_fd : ℤ
  pub closed : List ℤ

abbrev pub CacheCmd : Type 0 → Type 0
CacheCmd A = Cmd FileCache A

-- The constructor; `inotify_fd` is the answer of `inotify_init`.
unfoldable pub make_cache : (size : ℕ) → (inotify_fd : ℤ) → FileCache
make_cache size inotify_fd = record {
  head = null;
  tail = null;
  num_items = 0;
  max_num_items = size;
  nodes = λ _. none;
  freed = [];
  unwatched = [];
  inotify_fd = inotify_fd;
  closed = [];
}

unfoldable pub get_inotify_fd : CacheCmd ℤ
get_inotify_fd = do c ← read; pure c.inotify_fd

abbrev pub write_node : (Ptr → Option ItemNode) → Ptr → Option ItemNode → Ptr → Option ItemNode
write_node h p n q = if q == p then n else h q

-- `*p`: undefined at the null pointer and at an address that holds no node.
unfoldable pub load : Ptr → CacheCmd ItemNode
load p c = if p == null then fault else or_fault (c.nodes p) c

unfoldable pub store : Ptr → ItemNode → CacheCmd (Unit {0})
store p n c = ok tt (record c { nodes = write_node c.nodes p (some n) })

-- `for (n = head; n != nullptr; n = n->next) if (test(n)) return n; return nullptr;`
unfoldable pub find_node : (Item → Bool) → ℕ → Ptr → CacheCmd Ptr
find_node test zero p = λ _. out_of_fuel
find_node test (suc fuel) p =
    if p == null
    then pure null
    else do n ← load p; if test n.item then pure p else find_node test fuel n.next

unfoldable pub has_name : Bytes → Item → Bool
has_name name x = bytes_eq x.file_name name

-- A traversal of the list visits at most `num_items` nodes.
unfoldable pub get_item : Bytes → CacheCmd Ptr
unfolding find_node has_name
get_item name = do c ← read; find_node (has_name name) (c.num_items + 1) c.head

unfoldable pub remove_node : Ptr → CacheCmd Bool
unfolding load store
remove_node node = if node == null then pure true else do
  n ← load node
  if not (n.num_locks == 0) then pure false else do
    modify λ c. record c { head = if node == c.head then n.next else c.head }
    modify λ c. record c { tail = if node == c.tail then n.prev else c.tail }
    if n.prev == null
        then pure tt
        else do before ← load n.prev; store n.prev (record before { next = n.next })
    n ← load node
    if n.next == null
        then pure tt
        else do after ← load n.next; store n.next (record after { prev = n.prev })
    modify λ c. record c { num_items = sub_size c.num_items 1 }
    n ← load node
    modify λ c. record c {
      unwatched = n.watch ∷ c.unwatched;
      freed = n.buff ∷ c.freed;
      nodes = write_node c.nodes node none;
    }
    pure true

unfoldable pub remove_item : Bytes → CacheCmd Bool
remove_item name = do node ← get_item name; remove_node node

-- The branch that links a new node in front.
unfoldable pub add_front : Ptr → Item → CacheCmd Bool
unfolding load store
add_front fresh x = do
  c ← read
  if c.tail == null
      then (do
        store fresh (record { next = null; prev = null; item = x })
        modify λ c. record c { head = fresh; tail = fresh })
      else (do
        store fresh (record { next = c.head; prev = null; item = x })
        old ← load c.head
        store c.head (record old { prev = fresh })
        modify λ c. record c { head = fresh })
  modify λ c. record c { num_items = add_size c.num_items 1 }
  pure true

unfoldable pub new_item : Bytes → Ptr → ℕ → ℤ → Item
new_item name buff len wd = record {
  num_locks = 0;
  buff = buff;
  buff_length = len;
  file_name = name;
  watch = wd;
  outdated = false;
}

-- Each recursion follows the removal of a node, so two rounds are enough for a cache that is no
-- larger than its limit.
unfoldable pub add_or_update : ℕ → Ptr → ℤ → Bytes → Ptr → ℕ → CacheCmd Bool
add_or_update zero fresh wd name buff len = λ _. out_of_fuel
add_or_update (suc fuel) fresh wd name buff len = do
  node ← get_item name
  if not (node == null)
      then (do
        n ← load node
        if n.num_locks == 0
            then (do
              modify λ c. record c { freed = n.buff ∷ c.freed }
              store node (record n { item = record n.item { buff = buff; buff_length = len } })
              pure true)
            else pure false)
      else (do
        c ← read
        if ltb c.num_items c.max_num_items
            then add_front fresh (new_item name buff len wd)
            else if c.tail == null
            then pure false
            else do
              removed ← remove_node c.tail
              if removed then add_or_update fuel fresh wd name buff len else pure false)

unfoldable pub add_or_update_item : Ptr → ℤ → Bytes → Ptr → ℕ → CacheCmd Bool
add_or_update_item = add_or_update 2

-- Moving a node that is not the head to the front.
unfoldable pub promote : Ptr → CacheCmd (Unit {0})
unfolding load store
promote node = do
  c ← read
  n ← load node
  if node == c.tail
      then (do
        modify λ c. record c { tail = n.prev }
        before ← load n.prev
        store n.prev (record before { next = null }))
      else (do
        before ← load n.prev
        store n.prev (record before { next = n.next })
        after ← load n.next
        store n.next (record after { prev = n.prev }))
  n ← load node
  store node (record n { prev = null; next = c.head })
  old ← load c.head
  store c.head (record old { prev = node })
  modify λ c. record c { head = node }

-- Returns the node whose `data` the caller is given, or the null pointer.
unfoldable pub get_and_lock_item : Bytes → CacheCmd Ptr
get_and_lock_item name = do
  node ← get_item name
  if node == null then pure null else do
    n ← load node
    if n.outdated then (do remove_node node; pure null) else do
      store node (record n { item = record n.item { num_locks = add_size n.num_locks 1 } })
      c ← read
      if node == c.head then pure node else do promote node; pure node

unfoldable pub holds_lock : Bytes → Item → Bool
holds_lock name x = bytes_eq x.file_name name && not (x.num_locks == 0)

unfoldable pub unlock_item : Bytes → CacheCmd (Unit {0})
unfolding find_node holds_lock
unlock_item name = do
  c ← read
  node ← find_node (holds_lock name) (c.num_items + 1) c.head
  if node == null then pure tt else do
    n ← load node
    store node (record n { item = record n.item { num_locks = sub_size n.num_locks 1 } })

unfoldable pub same_watch : ℤ → Item → Bool
same_watch wd x = int_eq x.watch wd

-- An event is its mask and its watch descriptor; `none` is the null pointer.
unfoldable pub process_inotify_event : Option (ℕ × ℤ) → CacheCmd (Unit {0})
process_inotify_event none = pure tt
process_inotify_event (some (mask, wd)) = if mask == 0 then pure tt else do
  c ← read
  node ← find_node (same_watch wd) (c.num_items + 1) c.head
  if node == null then pure tt else do
    n ← load node
    store node (record n { item = record n.item { outdated = true } })
    remove_node node
    pure tt

-- The destructor's loop and its resets.
unfoldable pub destroy_nodes : ℕ → Ptr → CacheCmd (Unit {0})
unfolding load
destroy_nodes zero p = λ _. out_of_fuel
destroy_nodes (suc fuel) p = if p == null then pure tt else do
  n ← load p
  modify λ c. record c {
    unwatched = n.watch ∷ c.unwatched;
    freed = n.buff ∷ c.freed;
    nodes = write_node c.nodes p none;
  }
  destroy_nodes fuel n.next

unfoldable pub destroy : CacheCmd (Unit {0})
unfolding destroy_nodes
destroy = do
  c ← read
  destroy_nodes (c.num_items + 1) c.head
  modify λ c. record c { head = null; tail = null; num_items = 0 }
  modify λ c. record c { closed = c.inotify_fd ∷ c.closed }
