-- ===== src/Lru/Promote.antt =====
-- Writing an item in place, and `promote`: a node behind the head moves to the front.
mod Runs
use network_server.Base.{
  ◌≡◌, ◌≢◌, refl, sym, subst, ◌∙◌, inl, inr, Option, some, [], ◌∷◌, ◌++◌, arith, length-append,
  append_assoc, ==_self, ok,
}
use network_server.Lru.{Ptr, null, Item, ItemNode, FileCache, write_node, promote}
use network_server.Lru.Cells.{
  Cells, first, last, node, Rep, denote-append, denote_out, Distinct-append, append-Distinct,
  last-append, first-append, Snoc-cases, has-append,
}
use network_server.Lru.Find.{Rep-Place}
use network_server.Lru.Remove.{has_self, not_before, last-ne}
pub use Runs.{put_item, Rep-put_item}
use network_server.Lru.Promote.Runs.{run_second_of_two, run_second, run_last, run_middle, moved}

module _ (c : FileCache) (p : Ptr) (x : Item) (ne : p ≢ null) where
  abbrev Moves : Cells → Type 0
  Moves xs =
      (c' : FileCache) × (promote p c ≡ ok tt c')
      × Rep c' xs
      × (c'.freed ≡ c.freed)
      × (c'.unwatched ≡ c.unwatched)
      × (c'.max_num_items ≡ c.max_num_items)

  move_second_of_two :
      (q : Ptr) (y : Item) → Rep c ((q, y) ∷ (p, x) ∷ []) → Moves ((p, x) ∷ (q, y) ∷ [])
  move_second_of_two q y rep =
      let (nq, oq, (np, op, _)) = rep.distinct in
      let pq : p ≢ q = λ e. ground (arith, oq) in
      (
        moved c p x ne q _,
        run_second_of_two c p x ne q y (ground (arith, rep.nodes p)) (ground (arith, rep.nodes q))
            nq pq rep.head rep.tail,
        record {
          nodes = λ t. ground (arith, rep.nodes t);
          head = refl;
          tail = refl;
          count = rep.count;
          distinct = (np, ground arith, (nq, refl, tt));
          within = rep.within;
          small = rep.small;
        },
        refl,
        refl,
        refl,
      )

  move_second :
      (q : Ptr) (y : Item) (r : Ptr) (z : Item) (zs : Cells)
      → Rep c ((q, y) ∷ (p, x) ∷ (r, z) ∷ zs)
      → Moves ((p, x) ∷ (q, y) ∷ (r, z) ∷ zs)
  move_second q y r z zs rep =
      let (nq, oq, (np, op, (nr, or, dz))) = rep.distinct in
      let pq : p ≢ q = λ e. ground (arith, oq) in
      let pr : p ≢ r = λ e. ground (arith, op) in
      let qr : q ≢ r = λ e. ground (arith, oq) in
      (
        moved c p x ne c.tail _,
        run_second c p x ne q y r (first zs null) z (ground (arith, rep.nodes p))
            (ground (arith, rep.nodes q)) (ground (arith, rep.nodes r)) (nq, nr, pq, pr, qr)
            rep.head (rw rep.tail (last-ne p r zs (ground (arith, op)) (λ e. pr (sym e)))),
        record {
          nodes = λ t. ground (arith, rep.nodes t, denote_out r zs null t);
          head = refl;
          tail = rep.tail;
          count = rep.count;
          distinct = (np, ground arith, (nq, ground arith, (nr, or, dz)));
          within = rep.within;
          small = rep.small;
        },
        refl,
        refl,
        refl,
      )

  move_last :
      (h : Ptr) (w : Item) (ys : Cells) (q : Ptr) (y : Item)
      → Rep c ((h, w) ∷ ys ++ (q, y) ∷ (p, x) ∷ [])
      → Moves ((p, x) ∷ (h, w) ∷ ys ++ (q, y) ∷ [])
  move_last h w ys q y rep =
      let old : Cells = (q, y) ∷ (p, x) ∷ [] in
      let new : Cells = (q, y) ∷ [] in
      let (nh, oh, ds) = rep.distinct in
      let (dy, (nq, oq, (np, op, _)), apart) = Distinct-append ys old ds in
      let pq : p ≢ q = λ e. ground arith in
      let split = has-append h ys old in
      let ph : p ≢ h = λ e. ground arith in
      let qh : q ≢ h = λ e. ground arith in
      let out_p = not_before p ys old apart (ground (arith, ==_self p)) in
      let out_q = not_before q ys old apart (has_self q y ((p, x) ∷ [])) in
      let at = denote-append h ys old null in
      let after = denote-append h ys new null in
      let same = first-append ys old null ∙ sym (first-append ys new null) in
      (
        moved c p x ne q _,
        run_last c p x ne h (first (ys ++ old) null) w q (last h ys) y
            (ground (arith, rep.nodes p, at p)) (ground (arith, rep.nodes q, at q))
            (rep.nodes h ∙ ground arith) (nq, nh, pq, ph, qh) rep.head
            (rep.tail ∙ last-append h ys old),
        record {
          nodes = λ t. ground (arith, rep.nodes t, at t, after t, same, has-append t ys old);
          head = refl;
          tail = sym (last-append h ys new);
          count = omega (arith, rep.count, length-append ys old, length-append ys new);
          distinct = (
            np,
            ground (arith, has-append p ys new),
            (
              nh,
              ground (arith, has-append h ys new),
              append-Distinct ys new dy (nq, refl, tt) (λ t k. ground (arith, apart t k)),
            ),
          );
          within = omega (arith, rep.within, length-append ys old, length-append ys new);
          small = rep.small;
        },
        refl,
        refl,
        refl,
      )

  move_middle :
      (h : Ptr) (w : Item) (ys : Cells) (q : Ptr) (y : Item) (r : Ptr) (z : Item) (zs : Cells)
      → Rep c ((h, w) ∷ ys ++ (q, y) ∷ (p, x) ∷ (r, z) ∷ zs)
      → Moves ((p, x) ∷ (h, w) ∷ ys ++ (q, y) ∷ (r, z) ∷ zs)
  move_middle h w ys q y r z zs rep =
      let old : Cells = (q, y) ∷ (p, x) ∷ (r, z) ∷ zs in
      let new : Cells = (q, y) ∷ (r, z) ∷ zs in
      let (nh, oh, ds) = rep.distinct in
      let (dy, (nq, oq, (np, op, (nr, or, dz))), apart) = Distinct-append ys old ds in
      let split = has-append h ys old in
      let pq : p ≢ q = λ e. ground arith in
      let pr : p ≢ r = λ e. ground arith in
      let qr : q ≢ r = λ e. ground arith in
      let ph : p ≢ h = λ e. ground arith in
      let qh : q ≢ h = λ e. ground arith in
      let rh : r ≢ h = λ e. ground arith in
      let out_p = not_before p ys old apart (ground (arith, ==_self p)) in
      let out_q = not_before q ys old apart (has_self q y ((p, x) ∷ (r, z) ∷ zs)) in
      let out_r = not_before r ys old apart (ground (arith, ==_self r)) in
      let at = denote-append h ys old null in
      let after = denote-append h ys new null in
      let same = first-append ys old null ∙ sym (first-append ys new null) in
      (
        moved c p x ne c.tail _,
        run_middle c p x ne h (first (ys ++ old) null) w q (last h ys) y r (first zs null) z
            (ground (arith, rep.nodes p, at p)) (ground (arith, rep.nodes q, at q))
            (ground (arith, rep.nodes r, at r)) (rep.nodes h ∙ ground arith)
            (nq, nr, nh, pq, pr, ph, qr, qh, rh) rep.head
            (rw (rep.tail, last-append h ys old) (last-ne p r zs (ground arith) (λ e. pr (sym e)))),
        record {
          nodes = λ t. ground (
            arith,
            rep.nodes t,
            at t,
            after t,
            same,
            has-append t ys old,
            denote_out r zs null t,
          );
          head = refl;
          tail = rep.tail ∙ last-append h ys old ∙ sym (last-append h ys new);
          count = omega (arith, rep.count, length-append ys old, length-append ys new);
          distinct = (
            np,
            ground (arith, has-append p ys new),
            (
              nh,
              ground (arith, has-append h ys new),
              append-Distinct ys new dy (nq, ground arith, (nr, or, dz))
                  (λ t k. ground (arith, apart t k)),
            ),
          );
          within = omega (arith, rep.within, length-append ys old, length-append ys new);
          small = rep.small;
        },
        refl,
        refl,
        refl,
      )

  move_behind :
      (ys : Cells) (q : Ptr) (y : Item) (zs : Cells)
      → Rep c (ys ++ (q, y) ∷ (p, x) ∷ zs)
      → Moves ((p, x) ∷ ys ++ (q, y) ∷ zs)
  move_behind [] q y [] rep = move_second_of_two q y rep
  move_behind [] q y ((r, z) ∷ zs) rep = move_second q y r z zs rep
  move_behind ((h, w) ∷ ys) q y [] rep = move_last h w ys q y rep
  move_behind ((h, w) ∷ ys) q y ((r, z) ∷ zs) rep = move_middle h w ys q y r z zs rep

  -- A node that is not the head becomes the head; the other nodes keep their order.
  pub promote_lem :
      (ys zs : Cells)
      → ys ≢ []
      → Rep c (ys ++ (p, x) ∷ zs)
      → (c' : FileCache) × (promote p c ≡ ok tt c')
        × Rep c' ((p, x) ∷ ys ++ zs)
        × (c'.freed ≡ c.freed)
        × (c'.unwatched ≡ c.unwatched)
        × (c'.max_num_items ≡ c.max_num_items)
  promote_lem ys zs n rep = elim (Snoc-cases ys) [
    | inl e ↦ absurd (n e)
    | inr (v, q, y, e) ↦
        subst (λ t. Moves ((p, x) ∷ t ++ zs)) (sym e)
          (rw append_assoc (
            move_behind v q y zs
              (rw append_assoc at (subst (λ t. Rep c (t ++ (p, x) ∷ zs)) e rep))))
  ]
