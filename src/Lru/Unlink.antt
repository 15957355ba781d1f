-- ===== src/Lru/Unlink.antt =====
-- The runs of `remove_node` and of `promote`, in terms of what memory holds.
use network_server.Base.{◌≡◌, ◌≢◌, true, Option, none, some, ◌∷◌, arith, ok, sub_size}
use network_server.Lru.{Ptr, null, Item, ItemNode, FileCache, write_node, remove_node}
use network_server.Lru.Cells.{node}

-- The run of `remove_node` on an unlocked node, in terms of what memory holds: `q` and `r` are its
-- neighbours.
module _ (c : FileCache) (p : Ptr) (x : Item) (free : x.num_locks ≡ 0) (ne : p ≢ null) where
  abbrev pub removed : Ptr → Ptr → (Ptr → Option ItemNode) → FileCache
  removed head tail h = record c {
    head = head;
    tail = tail;
    num_items = sub_size c.num_items 1;
    unwatched = x.watch ∷ c.unwatched;
    freed = x.buff ∷ c.freed;
    nodes = write_node h p none;
  }

  pub run_alone :
      c.nodes p ≡ some (node null null x)
      → c.head ≡ p
      → c.tail ≡ p
      → remove_node p c ≡ ok true (removed null null c.nodes)
  unfolding remove_node
  run_alone hp hh ht = ground arith

  pub run_front :
      (r a : Ptr) (z : Item)
      → c.nodes p ≡ some (node r null x)
      → c.nodes r ≡ some (node a p z)
      → r ≢ null
      → p ≢ r
      → c.head ≡ p
      → c.tail ≢ p
      → remove_node p c ≡ ok true (removed r c.tail (write_node c.nodes r (some (node a null z))))
  unfolding remove_node
  run_front r a z hp hr nr pr hh ht = ground arith

  pub run_back :
      (q b : Ptr) (y : Item)
      → c.nodes p ≡ some (node null q x)
      → c.nodes q ≡ some (node p b y)
      → q ≢ null
      → p ≢ q
      → c.head ≢ p
      → c.tail ≡ p
      → remove_node p c ≡ ok true (removed c.head q (write_node c.nodes q (some (node null b y))))
  unfolding remove_node
  run_back q b y hp hq nq pq hh ht = ground arith

  pub run_between :
      (q b : Ptr) (y : Item) (r a : Ptr) (z : Item)
      → c.nodes p ≡ some (node r q x)
      → c.nodes q ≡ some (node p b y)
      → c.nodes r ≡ some (node a p z)
      → q ≢ null
      → r ≢ null
      → p ≢ q
      → p ≢ r
      → q ≢ r
      → c.head ≢ p
      → c.tail ≢ p
      → remove_node p c
        ≡ ok true (
            removed c.head c.tail
              (write_node (write_node c.nodes q (some (node r b y))) r (some (node a q z))))
  unfolding remove_node
  run_between q b y r a z hp hq hr nq nr pq pr qr hh ht = ground arith
