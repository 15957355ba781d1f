-- ===== src/Lru/Add.antt =====
-- `add_front`: a new node becomes the head.
use network_server.Base.{
  ◌+◌, ◌%◌, ◌^◌, ◌<◌, ◌≡◌, ◌≢◌, refl, sym, ◌∙◌, true, false, none, some, [], ◌∷◌, arith, length, ok,
}
use network_server.Lru.{Ptr, null, Item, FileCache, write_node, add_front}
use network_server.Lru.Cells.{Cells, has, first, last, node, denote, Distinct, Rep}

pub out_of_unused :
    (start : Ptr) (xs : Cells) (stop q : Ptr) → denote start xs stop q ≡ none → has q xs ≡ false
out_of_unused start [] stop q h = refl
out_of_unused start ((p, x) ∷ xs) stop q h = ground (arith, out_of_unused p xs stop q)

pub last-ne_null : (p : Ptr) (xs : Cells) → p ≢ null → Distinct xs → last p xs ≢ null
last-ne_null p [] n d = n
last-ne_null p ((q, x) ∷ xs) n d = last-ne_null q xs d.0 d.2

module _ (c : FileCache) (fresh : Ptr) (x : Item) (ne : fresh ≢ null)
    (unused : c.nodes fresh ≡ none) where
  abbrev Adds : Cells → Type 0
  Adds xs =
      (c' : FileCache) × (add_front fresh x c ≡ ok true c')
      × Rep c' ((fresh, x) ∷ xs)
      × (c'.freed ≡ c.freed)
      × (c'.unwatched ≡ c.unwatched)
      × (c'.max_num_items ≡ c.max_num_items)

  -- Below the limit, a node at an unused address becomes the head of the list.
  pub add_front_lem :
      (xs : Cells)
      → Rep c xs
      → length xs < c.max_num_items
      → (c' : FileCache) × (add_front fresh x c ≡ ok true c')
        × Rep c' ((fresh, x) ∷ xs)
        × (c'.freed ≡ c.freed)
        × (c'.unwatched ≡ c.unwatched)
        × (c'.max_num_items ≡ c.max_num_items)
  unfolding add_front
  add_front_lem [] rep room = (
    record c {
      head = fresh;
      tail = fresh;
      num_items = (c.num_items + 1) % 2 ^ 64;
      nodes = write_node c.nodes fresh (some (node null null x));
    },
    ground (arith, rep.tail),
    record {
      nodes = λ q. ground (arith, rep.nodes q);
      head = refl;
      tail = refl;
      count = omega (arith, rep.count, rep.small);
      distinct = (ne, refl, tt);
      within = room;
      small = rep.small;
    },
    refl,
    refl,
    refl,
  )
  add_front_lem ((p, y) ∷ xs) rep room =
      let out = out_of_unused null ((p, y) ∷ xs) null fresh (sym (rep.nodes fresh) ∙ unused) in
      let tail : c.tail ≢ null = rw rep.tail (last-ne_null p xs rep.distinct.0 rep.distinct.2) in
      let pf : p ≢ fresh = λ e. ground (arith, out) in
      (
        record c {
          head = fresh;
          num_items = (c.num_items + 1) % 2 ^ 64;
          nodes =
              write_node (write_node c.nodes fresh (some (node p null x))) p
                (some (node (first xs null) fresh y));
        },
        ground (arith, rep.head, tail, rep.nodes p, rep.distinct.0),
        record {
          nodes = λ q. ground (arith, rep.nodes q, out);
          head = refl;
          tail = rep.tail;
          count = omega (arith, rep.count, rep.small);
          distinct = (ne, out, rep.distinct);
          within = room;
          small = rep.small;
        },
        refl,
        refl,
        refl,
      )
