-- ===== src/Lru/Remove.antt =====
-- `remove_node`: a node leaves the list, whatever its neighbours are.
use network_server.Base.{
  ◌≡◌, ◌≢◌, refl, sym, subst, ◌∙◌, inl, inr, true, false, [], ◌∷◌, ◌++◌, arith, length-append,
  append_assoc, ==_self, ==_iff, ok,
}
use network_server.Lru.{Ptr, null, Item, FileCache, remove_node}
use network_server.Lru.Cells.{
  Cells, has, first, last, Distinct, Rep, denote-append, denote_out, Distinct-append,
  append-Distinct, last-append, first-append, Snoc-cases,
}
use network_server.Lru.Find.{Rep-Place}
use network_server.Lru.Unlink.{removed, run_alone, run_front, run_back, run_between}

-- What the removal of a node with item `x` leaves.
pub record Removed (c c' : FileCache) (x : Item) (xs : Cells) : Type 0 where
  pub rep : Rep c' xs
  pub freed : c'.freed ≡ x.buff ∷ c.freed
  pub unwatched : c'.unwatched ≡ x.watch ∷ c.unwatched
  pub limit : c'.max_num_items ≡ c.max_num_items

pub has_self : (q : Ptr) (x : Item) (xs : Cells) → has q ((q, x) ∷ xs) ≡ true
has_self q x xs = rw (==_self q) refl

-- An address in the second part of a distinct list is not in the first.
pub not_before :
    (q : Ptr) (ys zs : Cells)
    → ((t : Ptr) → has t ys ≡ true → has t zs ≡ false)
    → has q zs ≡ true
    → has q ys ≡ false
not_before q ys zs apart h = ground (arith, apart q)

pub first-ne : (p q : Ptr) (ys : Cells) → has p ys ≡ false → q ≢ p → first ys q ≢ p
first-ne p q [] h n = n
first-ne p q ((t, x) ∷ ys) h n = λ e. ground (arith, ==_iff p t)

pub last-ne : (p q : Ptr) (ys : Cells) → has p ys ≡ false → q ≢ p → last q ys ≢ p
last-ne p q [] h n = n
last-ne p q ((t, x) ∷ ys) h n = last-ne p t ys (ground arith) (λ e. ground (arith, ==_iff p t))

pub Distinct-delete :
    (ys : Cells) (p : Ptr) (x : Item) (zs : Cells)
    → Distinct (ys ++ (p, x) ∷ zs)
    → Distinct (ys ++ zs)
Distinct-delete ys p x zs d =
    let (dy, (_, _, dz), apart) = Distinct-append ys ((p, x) ∷ zs) d in
    append-Distinct ys zs dy dz (λ q h. ground (arith, apart q))

module _ (c : FileCache) (p : Ptr) (x : Item) (free : x.num_locks ≡ 0) where
  abbrev Removes : Cells → Type 0
  Removes xs = (c' : FileCache) × (remove_node p c ≡ ok true c') × Removed c c' x xs

  remove_alone : Rep c ((p, x) ∷ []) → Removes []
  remove_alone r = (
    removed c p x free r.distinct.0 null null c.nodes,
    run_alone c p x free r.distinct.0 (ground (arith, r.nodes p)) r.head r.tail,
    record {
      rep = record {
        nodes = λ q. ground (arith, r.nodes q);
        head = refl;
        tail = refl;
        count = omega (arith, r.count);
        distinct = tt;
        within = omega arith;
        small = r.small;
      };
      freed = refl;
      unwatched = refl;
      limit = refl;
    },
  )

  remove_front :
      (r : Ptr) (z : Item) (zs : Cells) → Rep c ((p, x) ∷ (r, z) ∷ zs) → Removes ((r, z) ∷ zs)
  remove_front r z zs rep =
      let pr : p ≢ r = λ e. ground (arith, rep.distinct.1) in
      (
        removed c p x free rep.distinct.0 r c.tail _,
        run_front c p x free rep.distinct.0 r (first zs null) z (ground (arith, rep.nodes p))
            (ground (arith, rep.nodes r)) rep.distinct.2.0 pr rep.head
            (rw rep.tail (last-ne p r zs (ground (arith, rep.distinct.1)) (λ e. pr (sym e)))),
        record {
          rep = record {
            nodes = λ q. ground (arith, rep.nodes q, denote_out null ((r, z) ∷ zs) null q);
            head = refl;
            tail = rep.tail;
            count = omega (arith, rep.count, rep.within, rep.small);
            distinct = rep.distinct.2;
            within = omega (arith, rep.within);
            small = rep.small;
          };
          freed = refl;
          unwatched = refl;
          limit = refl;
        },
      )

  remove_back :
      (ys : Cells) (q : Ptr) (y : Item)
      → Rep c (ys ++ (q, y) ∷ (p, x) ∷ [])
      → Removes (ys ++ (q, y) ∷ [])
  remove_back ys q y rep =
      let (dy, dq, apart) = Distinct-append ys ((q, y) ∷ (p, x) ∷ []) rep.distinct in
      let pq : p ≢ q = λ e. ground (arith, dq.1) in
      let out_p = not_before p ys ((q, y) ∷ (p, x) ∷ []) apart (ground (arith, ==_self p)) in
      let out_q = not_before q ys ((q, y) ∷ (p, x) ∷ []) apart (has_self q y ((p, x) ∷ [])) in
      let at = denote-append null ys ((q, y) ∷ (p, x) ∷ []) null in
      let after = denote-append null ys ((q, y) ∷ []) null in
      (
        removed c p x free dq.2.0 c.head q _,
        run_back c p x free dq.2.0 q (last null ys) y (ground (arith, rep.nodes p, at p))
            (ground (arith, rep.nodes q, at q)) dq.0 pq
            (rw (rep.head, first-append ys ((q, y) ∷ (p, x) ∷ []) null)
              (first-ne p q ys out_p (λ e. pq (sym e))))
            (rep.tail ∙ last-append null ys _),
        record {
          rep = record {
            nodes = λ t. ground (arith, rep.nodes t, at t, after t);
            head =
                rep.head
                ∙ first-append ys ((q, y) ∷ (p, x) ∷ []) null
                ∙ sym (first-append ys ((q, y) ∷ []) null);
            tail = sym (last-append null ys _);
            count = omega (
              arith,
              rep.count,
              rep.within,
              rep.small,
              length-append ys ((q, y) ∷ (p, x) ∷ []),
              length-append ys ((q, y) ∷ []),
            );
            distinct =
                append-Distinct ys ((q, y) ∷ []) dy (dq.0, refl, tt)
                  (λ t h. ground (arith, apart t h));
            within = omega (
              arith,
              rep.within,
              length-append ys ((q, y) ∷ (p, x) ∷ []),
              length-append ys ((q, y) ∷ []),
            );
            small = rep.small;
          };
          freed = refl;
          unwatched = refl;
          limit = refl;
        },
      )

  remove_between :
      (ys : Cells) (q : Ptr) (y : Item) (r : Ptr) (z : Item) (zs : Cells)
      → Rep c (ys ++ (q, y) ∷ (p, x) ∷ (r, z) ∷ zs)
      → Removes (ys ++ (q, y) ∷ (r, z) ∷ zs)
  remove_between ys q y r z zs rep =
      let old : Cells = (q, y) ∷ (p, x) ∷ (r, z) ∷ zs in
      let new : Cells = (q, y) ∷ (r, z) ∷ zs in
      let (dy, (nq, oq, (np, op, (nr, or, dz))), apart) = Distinct-append ys old rep.distinct in
      let pq : p ≢ q = λ e. ground arith in
      let pr : p ≢ r = λ e. ground arith in
      let qr : q ≢ r = λ e. ground arith in
      let out_p = not_before p ys old apart (ground (arith, ==_self p)) in
      let out_q = not_before q ys old apart (has_self q y ((p, x) ∷ (r, z) ∷ zs)) in
      let out_r = not_before r ys old apart (ground (arith, ==_self r)) in
      let at = denote-append null ys old null in
      let after = denote-append null ys new null in
      (
        removed c p x free np c.head c.tail _,
        run_between c p x free np q (last null ys) y r (first zs null) z
            (ground (arith, rep.nodes p, at p)) (ground (arith, rep.nodes q, at q))
            (ground (arith, rep.nodes r, at r)) nq nr pq pr qr
            (rw (rep.head, first-append ys old null) (first-ne p q ys out_p (λ e. pq (sym e))))
            (rw (rep.tail, last-append null ys old)
              (last-ne p r zs (ground arith) (λ e. pr (sym e)))),
        record {
          rep = record {
            nodes = λ t. ground (arith, rep.nodes t, at t, after t, denote_out r zs null t);
            head = rep.head ∙ first-append ys old null ∙ sym (first-append ys new null);
            tail = rep.tail ∙ last-append null ys old ∙ sym (last-append null ys new);
            count = omega (
              arith,
              rep.count,
              rep.within,
              rep.small,
              length-append ys old,
              length-append ys new,
            );
            distinct =
                append-Distinct ys new dy (nq, ground arith, (nr, or, dz))
                  (λ t h. ground (arith, apart t h));
            within = omega (arith, rep.within, length-append ys old, length-append ys new);
            small = rep.small;
          };
          freed = refl;
          unwatched = refl;
          limit = refl;
        },
      )

  -- Behind a known predecessor.
  remove_behind :
      (ys : Cells) (q : Ptr) (y : Item) (zs : Cells)
      → Rep c (ys ++ (q, y) ∷ (p, x) ∷ zs)
      → Removes (ys ++ (q, y) ∷ zs)
  remove_behind ys q y [] rep = remove_back ys q y rep
  remove_behind ys q y ((r, z) ∷ zs) rep = remove_between ys q y r z zs rep

  remove_first_node : (zs : Cells) → Rep c ((p, x) ∷ zs) → Removes zs
  remove_first_node [] rep = remove_alone rep
  remove_first_node ((r, z) ∷ zs) rep = remove_front r z zs rep

  -- An unlocked node is unlinked, its buffer freed, its watch removed and its memory given back.
  pub remove_node-Removed :
      (ys zs : Cells)
      → Rep c (ys ++ (p, x) ∷ zs)
      → (c' : FileCache) × (remove_node p c ≡ ok true c') × Removed c c' x (ys ++ zs)
  remove_node-Removed ys zs rep = elim (Snoc-cases ys) [
    | inl e ↦
        subst (λ v. Removes (v ++ zs)) (sym e)
          (remove_first_node zs (subst (λ v. Rep c (v ++ (p, x) ∷ zs)) e rep))
    | inr (v, q, y, e) ↦
        subst (λ t. Removes (t ++ zs)) (sym e)
          (rw append_assoc (
            remove_behind v q y zs
              (rw append_assoc at (subst (λ t. Rep c (t ++ (p, x) ∷ zs)) e rep))))
  ]

-- A locked node stays, and nothing changes.
pub remove_node-locked :
    (c : FileCache) (ys : Cells) (p : Ptr) (x : Item) (zs : Cells)
    → x.num_locks ≢ 0
    → Rep c (ys ++ (p, x) ∷ zs)
    → remove_node p c ≡ ok false c
unfolding remove_node
remove_node-locked c ys p x zs held rep =
    let w = Rep-Place c ys p x zs rep in ground (arith, w.ne_null, w.holds)
