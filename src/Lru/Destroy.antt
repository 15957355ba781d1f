-- ===== src/Lru/Destroy.antt =====
-- The destructor gives back every buffer and watch of the cache, and every node.
use network_server.Base.{
  ℕ, suc, zero, ◌+◌, ◌<◌, ◌≡◌, refl, none, some, List, [], ◌∷◌, arith, length, ok, ℤ, ==_iff,
  ==_self,
}
use network_server.Lru.{Ptr, null, Item, FileCache, load, write_node, destroy, destroy_nodes}
use network_server.Lru.Cells.{Cells, items, first, node, denote, denote_out, Distinct}
use network_server.Lru.Spec.{Shelf}
use network_server.Lru.Refines.{Refines}

-- The buffers and the watches of the items, the last one in front of those given back before.
abbrev pub buffers : List Item → List Ptr → List Ptr
buffers [] before = before
buffers (x ∷ xs) before = buffers xs (x.buff ∷ before)

abbrev pub watches : List Item → List ℤ → List ℤ
watches [] before = before
watches (x ∷ xs) before = watches xs (x.watch ∷ before)

record Emptied (c c' : FileCache) (xs : List Item) : Type 0 where
  pub nodes : (q : Ptr) → c'.nodes q ≡ none
  pub freed : c'.freed ≡ buffers xs c.freed
  pub unwatched : c'.unwatched ≡ watches xs c.unwatched
  pub same_fd : c'.inotify_fd ≡ c.inotify_fd
  pub same_closed : c'.closed ≡ c.closed

abbrev without : FileCache → Ptr → Item → FileCache
without c p x = record c {
  unwatched = x.watch ∷ c.unwatched;
  freed = x.buff ∷ c.freed;
  nodes = write_node c.nodes p none;
}

destroy_nodes-Emptied :
    (fuel : ℕ) (start : Ptr) (xs : Cells) (c : FileCache)
    → length xs < fuel
    → Distinct xs
    → ((q : Ptr) → c.nodes q ≡ denote start xs null q)
    → (c' : FileCache) × (destroy_nodes fuel (first xs null) c ≡ ok tt c') × Emptied c c' (items xs)
unfolding destroy_nodes load
destroy_nodes-Emptied zero start xs c enough d heap = absurd (omega arith)
destroy_nodes-Emptied (suc fuel) start [] c enough d heap = (
  c,
  refl,
  record { nodes = heap; freed = refl; unwatched = refl; same_fd = refl; same_closed = refl },
)
destroy_nodes-Emptied (suc fuel) start ((p, x) ∷ xs) c enough (ne, out, d) heap =
    let there : c.nodes p ≡ some (node (first xs null) start x) =
      ground (arith, heap p, ==_self p) in
    let (c', e, gone) =
      destroy_nodes-Emptied fuel p xs (without c p x) (omega arith) d
        (λ q. ground (arith, heap q, ==_iff q p, denote_out p xs null p out)) in
    (
      c',
      ground (arith, there, e),
      record {
        nodes = gone.nodes;
        freed = gone.freed;
        unwatched = gone.unwatched;
        same_fd = gone.same_fd;
        same_closed = gone.same_closed;
      },
    )

-- The destructor of a cache ends, and has given back the buffer and the watch of every item and
-- every node; it leaves an empty list and closes the descriptor of its watches.
pub destroy-Refines :
    (c : FileCache) (s : Shelf)
    → Refines c s
    → (c' : FileCache) × (destroy c ≡ ok tt c')
      × ((q : Ptr) → c'.nodes q ≡ none)
      × (c'.freed ≡ buffers s.items s.freed)
      × (c'.unwatched ≡ watches s.items s.unwatched)
      × (c'.head ≡ null)
      × (c'.tail ≡ null)
      × (c'.num_items ≡ 0)
      × (c'.closed ≡ c.inotify_fd ∷ c.closed)
unfolding destroy
destroy-Refines c s r =
    let (d, e, gone) =
      destroy_nodes-Emptied (c.num_items + 1) null r.cells c (omega (arith, r.rep.count))
        r.rep.distinct r.rep.nodes in
    (
      record d { head = null; tail = null; num_items = 0; closed = d.inotify_fd ∷ d.closed },
      ground (arith, r.rep.head, e),
      gone.nodes,
      rw (r.same_items, r.same_freed) gone.freed,
      rw (r.same_items, r.same_unwatched) gone.unwatched,
      refl,
      refl,
      refl,
      rw (gone.same_fd, gone.same_closed) refl,
    )
