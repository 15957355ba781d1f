-- ===== src/Lru/Promote/Runs.antt =====
-- The runs of `promote` on the node that is moved, its neighbours and the head.
use network_server.Base.{◌≡◌, ◌≢◌, sym, ◌∙◌, Option, some, ◌∷◌, ◌++◌, arith, length-append, ok}
use network_server.Lru.{Ptr, null, Item, ItemNode, FileCache, write_node, promote}
use network_server.Lru.Cells.{
  Cells, first, last, node, Rep, denote-append, Distinct-append, append-Distinct, last-append,
  first-append,
}
use network_server.Lru.Find.{Rep-Place}

-- The cache with another item in node `p`, whose links stay.
abbrev pub put_item : FileCache → Ptr → Ptr → Ptr → Item → FileCache
put_item c p next prev x = record c { nodes = write_node c.nodes p (some (node next prev x)) }

pub Rep-put_item :
    (c : FileCache) (ys : Cells) (p : Ptr) (x x' : Item) (zs : Cells)
    → Rep c (ys ++ (p, x) ∷ zs)
    → Rep (put_item c p (first zs null) (last null ys) x') (ys ++ (p, x') ∷ zs)
Rep-put_item c ys p x x' zs rep =
    let w = Rep-Place c ys p x zs rep in
    let old : Cells = (p, x) ∷ zs in
    let new : Cells = (p, x') ∷ zs in
    let (dy, dp, apart) = Distinct-append ys old rep.distinct in
    record {
      nodes = λ t. ground (
        arith,
        rep.nodes t,
        denote-append null ys old null t,
        denote-append null ys new null t,
        w.out_before,
      );
      head = rep.head ∙ first-append ys old null ∙ sym (first-append ys new null);
      tail = rep.tail ∙ last-append null ys old ∙ sym (last-append null ys new);
      count = omega (arith, rep.count, length-append ys old, length-append ys new);
      distinct = append-Distinct ys new dy dp (λ t h. ground (arith, apart t h));
      within = omega (arith, rep.within, length-append ys old, length-append ys new);
      small = rep.small;
    }

-- The runs of `promote`: `q` and `r` are the neighbours of `p`, and `h` is the head.
module _ (c : FileCache) (p : Ptr) (x : Item) (ne : p ≢ null) where
  abbrev pub moved : Ptr → (Ptr → Option ItemNode) → FileCache
  moved tail h = record c { head = p; tail = tail; nodes = h }

  pub run_second_of_two :
      (q : Ptr) (y : Item)
      → c.nodes p ≡ some (node null q x)
      → c.nodes q ≡ some (node p null y)
      → q ≢ null
      → p ≢ q
      → c.head ≡ q
      → c.tail ≡ p
      → promote p c
        ≡ ok tt (
            moved q (
              write_node
                (write_node
                  (write_node c.nodes q (some (node null null y)))
                  p
                  (some (node q null x)))
                q
                (some (node null p y))))
  unfolding promote
  run_second_of_two q y hp hq nq pq hh ht = ground arith

  pub run_second :
      (q : Ptr) (y : Item) (r a : Ptr) (z : Item)
      → c.nodes p ≡ some (node r q x)
      → c.nodes q ≡ some (node p null y)
      → c.nodes r ≡ some (node a p z)
      → (q ≢ null) × (r ≢ null) × (p ≢ q) × (p ≢ r) × (q ≢ r)
      → c.head ≡ q
      → c.tail ≢ p
      → promote p c
        ≡ ok tt (
            moved c.tail (
              write_node
                (write_node
                  (write_node (write_node c.nodes q (some (node r null y))) r (some (node a q z)))
                  p
                  (some (node q null x)))
                q
                (some (node r p y))))
  unfolding promote
  run_second q y r a z hp hq hr ne' hh ht = ground arith

  pub run_last :
      (h d : Ptr) (w : Item) (q b : Ptr) (y : Item)
      → c.nodes p ≡ some (node null q x)
      → c.nodes q ≡ some (node p b y)
      → c.nodes h ≡ some (node d null w)
      → (q ≢ null) × (h ≢ null) × (p ≢ q) × (p ≢ h) × (q ≢ h)
      → c.head ≡ h
      → c.tail ≡ p
      → promote p c
        ≡ ok tt (
            moved q (
              write_node
                (write_node (write_node c.nodes q (some (node null b y))) p (some (node h null x)))
                h
                (some (node d p w))))
  unfolding promote
  run_last h d w q b y hp hq hd ne' hh ht = ground arith

  pub run_middle :
      (h d : Ptr) (w : Item) (q b : Ptr) (y : Item) (r a : Ptr) (z : Item)
      → c.nodes p ≡ some (node r q x)
      → c.nodes q ≡ some (node p b y)
      → c.nodes r ≡ some (node a p z)
      → c.nodes h ≡ some (node d null w)
      → (q ≢ null)
        × (r ≢ null)
        × (h ≢ null)
        × (p ≢ q)
        × (p ≢ r)
        × (p ≢ h)
        × (q ≢ r)
        × (q ≢ h)
        × (r ≢ h)
      → c.head ≡ h
      → c.tail ≢ p
      → promote p c
        ≡ ok tt (
            moved c.tail (
              write_node
                (write_node
                  (write_node (write_node c.nodes q (some (node r b y))) r (some (node a q z)))
                  p
                  (some (node h null x)))
                h
                (some (node d p w))))
  unfolding promote
  run_middle h d w q b y r a z hp hq hr hd ne' hh ht = ground arith
