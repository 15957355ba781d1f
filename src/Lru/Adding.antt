-- ===== src/Lru/Adding.antt =====
-- `add_or_update_item` against its specification.
mod Rounds
use network_server.Base.{
  ℕ, suc, ◌<◌, ◌≤◌, ◌≡◌, ◌≢◌, ◌⊎◌, refl, sym, subst, ap, ◌∙◌, inl, inr, Bool, true, false, none,
  some, [], ◌∷◌, ◌++◌, arith, ◌==◌, length, length-append, append-nil, Bool-cases, ==_iff, ok, Run,
  ℤ, Bytes, ltb, ltb→lt, ltb→ge, lt→ltb, ge→ltb,
}
use network_server.Lru.{
  Ptr, null, Item, FileCache, has_name, store, remove_node, get_item, add_or_update_item,
  add_or_update, new_item,
}
use network_server.Lru.Cells.{
  Cells, items, has, first, last, Rep, length-items, Snoc-cases, has-append, denote_out,
  last-append, Distinct-append,
}
use network_server.Lru.Find.{Rep-Place, load-ok, NoMatch, Hit, get_item-Found}
use network_server.Lru.Remove.{remove_node-Removed, remove_node-locked}
use network_server.Lru.Promote.{put_item}
use network_server.Lru.Add.{add_front_lem, out_of_unused}
use network_server.Lru.Spec.{
  Shelf, first_match, update_first, last_item, drop_last, discard, evict_and_add,
}
use network_server.Lru.Spec
use network_server.Lru.Refines.{Refines, first_match-NoMatch, put_hit, Hit-load, first-Hit}
use network_server.Lru.Adding.Rounds.{
  last_item-concat, drop_last-concat, NoMatch-front, no_hit, get_item-none, AddsNew, add_round,
  add_evicting, locked_round, evict_round,
}

abbrev Result : Ptr → ℤ → Bytes → Ptr → ℕ → FileCache → Shelf × Bool → Type 0
Result fresh wd name buff len c (t, done) =
    (c' : FileCache) × (add_or_update_item fresh wd name buff len c ≡ ok done c') × Refines c' t

-- No node lives at the address when `new` returns it: none does so before the call, or the one that
-- does is the last node of a full cache, which `add_or_update_item` deletes before it allocates.
abbrev pub Unused : Ptr → FileCache → Type 0
Unused fresh c = (c.nodes fresh ≡ none) ⊎ ((c.max_num_items ≤ c.num_items) × (fresh ≡ c.tail))

fresh_with_room :
    (fresh : Ptr) (c : FileCache)
    → Unused fresh c
    → c.num_items < c.max_num_items
    → c.nodes fresh ≡ none
fresh_with_room fresh c (inl unused) room = unused
fresh_with_room fresh c (inr (full, last)) room = absurd (omega arith)

-- The address is not one of the nodes that stay when the last node goes.
fresh_of_kept :
    (fresh : Ptr) (c : FileCache) (ys : Cells) (p : Ptr) (x : Item)
    → Rep c (ys ++ (p, x) ∷ [])
    → Unused fresh c
    → has fresh ys ≡ false
fresh_of_kept fresh c ys p x rep (inl unused) =
    let out = out_of_unused null (ys ++ (p, x) ∷ []) null fresh (sym (rep.nodes fresh) ∙ unused) in
    ground (arith, has-append fresh ys ((p, x) ∷ []), out)
fresh_of_kept fresh c ys p x rep (inr (full, last)) =
    let same : fresh ≡ p = last ∙ rep.tail ∙ last-append null ys _ in
    let apart = (Distinct-append ys ((p, x) ∷ []) rep.distinct).2 in
    ground (arith, apart fresh, ==_iff fresh p, same)

module _ (fresh : Ptr) (wd : ℤ) (name : Bytes) (buff : Ptr) (len : ℕ) (ne : fresh ≢ null) where
  -- The item is there: its buffer is replaced, unless it is locked.
  update_present :
      (c : FileCache) (s : Shelf) (r : Refines c s) (p : Ptr)
      → get_item name c ≡ ok p c
      → Hit (has_name name) r.cells p
      → Result fresh wd name buff len c (Spec.add_or_update name buff len wd s)
  unfolding add_or_update_item add_or_update store Spec.add_or_update
  update_present c s r p e h =
      let w = Hit-load r.rep h in
      let nn : (p == null) ≡ false = ground (arith, w.ne_null) in
      rw (first-Hit _ c s r p h, Spec.add_or_update)
        (elim (Bool-cases (h.item.num_locks == 0)) [
          | inl free ↦
              let put =
                put_hit (has_name name) (λ y. record y { buff = buff; buff_length = len }) c s r p
                  h in
              rw free (
                put_item (record c { freed = h.item.buff ∷ c.freed }) p (first h.after null)
                    (last null h.before) (record h.item { buff = buff; buff_length = len }),
                rw (e, nn, load-ok w, free) refl,
                record {
                  cells = put.cells;
                  rep = record {
                    nodes = put.rep.nodes;
                    head = put.rep.head;
                    tail = put.rep.tail;
                    count = put.rep.count;
                    distinct = put.rep.distinct;
                    within = put.rep.within;
                    small = put.rep.small;
                  };
                  same_items = put.same_items;
                  same_limit = put.same_limit;
                  same_freed = ap (◌∷◌ h.item.buff) r.same_freed;
                  same_unwatched = put.same_unwatched;
                },
              )
          | inr held ↦ rw held (c, rw (e, nn, load-ok w, held) refl, r)
        ])

  empty_round :
      (c : FileCache)
      → get_item name c ≡ ok null c
      → ltb c.num_items c.max_num_items ≡ false
      → c.tail ≡ null
      → add_or_update_item fresh wd name buff len c ≡ ok false c
  unfolding add_or_update_item add_or_update
  empty_round c e full t = ground arith

  full_empty :
      (c : FileCache) (s : Shelf) (r : Refines c s)
      → NoMatch (has_name name) r.cells
      → c.max_num_items ≤ length r.cells
      → r.cells ≡ []
      → Result fresh wd name buff len c (evict_and_add (new_item name buff len wd) s)
  unfolding evict_and_add last_item
  full_empty c s r n full e =
      rw (ap last_item (r.same_items ∙ ap items e), evict_and_add)
        (
          c,
          empty_round c (get_item-none name c r.cells r.rep n)
              (ge→ltb _ _ (omega (arith, r.rep.count, full))) (r.rep.tail ∙ ap (last null) e),
          r,
        )

  full_last :
      (c : FileCache) (s : Shelf) (r : Refines c s) (ys : Cells) (p : Ptr) (x : Item)
      → NoMatch (has_name name) r.cells
      → Unused fresh c
      → c.max_num_items ≤ length r.cells
      → r.cells ≡ ys ++ (p, x) ∷ []
      → Result fresh wd name buff len c (evict_and_add (new_item name buff len wd) s)
  unfolding evict_and_add add_or_update_item discard drop_last
  full_last c s r ys p x n unused full e =
      let rep = subst (Rep c) e r.rep in
      let n' = subst (NoMatch (has_name name)) e n in
      let full' = subst (λ xs. c.max_num_items ≤ length xs) e full in
      rw (ap last_item (r.same_items ∙ ap items e) ∙ last_item-concat ys p x, evict_and_add)
        (elim (Bool-cases (x.num_locks == 0)) [
          | inl free ↦
              let (c', run, rep', kf, ku, kl) =
                add_evicting fresh wd name buff len ne 0 c ys p x rep n'
                  (fresh_of_kept fresh c ys p x rep unused) full' ((==_iff _ 0).0 free) in
              rw free (
                c',
                run,
                record {
                  cells = (fresh, new_item name buff len wd) ∷ ys;
                  rep = rep';
                  same_items =
                      ap (λ t. new_item name buff len wd ∷ drop_last t) (r.same_items ∙ ap items e)
                      ∙ ap (◌∷◌ (new_item name buff len wd)) (drop_last-concat ys p x);
                  same_limit = r.same_limit ∙ sym kl;
                  same_freed = ap (◌∷◌ x.buff) r.same_freed ∙ sym kf;
                  same_unwatched = ap (◌∷◌ x.watch) r.same_unwatched ∙ sym ku;
                },
              )
          | inr held ↦ rw held (
            c,
            locked_round fresh wd name buff len ne 1 c p (get_item-none name c _ rep n')
                (ge→ltb _ _ (omega (arith, rep.count))) (rep.tail ∙ last-append null ys _)
                (Rep-Place c ys p x [] rep).ne_null
                (remove_node-locked c ys p x [] (λ z. ground arith) rep),
            r,
          )
        ])

  add_absent :
      (c : FileCache) (s : Shelf) (r : Refines c s)
      → NoMatch (has_name name) r.cells
      → Unused fresh c
      → Result fresh wd name buff len c (Spec.add_or_update name buff len wd s)
  unfolding Spec.add_or_update add_or_update_item
  add_absent c s r n unused =
      let many : length s.items ≡ length r.cells = ap length r.same_items ∙ length-items r.cells in
      rw (ap (first_match _) r.same_items ∙ first_match-NoMatch _ r.cells n, Spec.add_or_update)
        (elim (Bool-cases (ltb (length s.items) s.limit)) [
          | inl fits ↦
              let (c', run, rep', kf, ku, kl) =
                add_round fresh wd name buff len ne 1 c r.cells r.rep n
                  (fresh_with_room fresh c unused
                    (omega (arith, r.rep.count, ltb→lt _ _ fits, many, r.same_limit)))
                  (omega (arith, ltb→lt _ _ fits, many, r.same_limit)) in
              rw fits (
                c',
                run,
                record {
                  cells = (fresh, new_item name buff len wd) ∷ r.cells;
                  rep = rep';
                  same_items = ap (◌∷◌ (new_item name buff len wd)) r.same_items;
                  same_limit = r.same_limit ∙ sym kl;
                  same_freed = r.same_freed ∙ sym kf;
                  same_unwatched = r.same_unwatched ∙ sym ku;
                },
              )
          | inr full ↦
              let le : c.max_num_items ≤ length r.cells =
                omega (arith, ltb→ge _ _ full, many, r.same_limit) in
              rw full (elim (Snoc-cases r.cells) [
                | inl e ↦ full_empty c s r n le e
                | inr (ys, p, x, e) ↦ full_last c s r ys p x n unused le e
              ])
        ])

  -- `add_or_update_item` replaces the buffer of an unlocked item of that name, puts a new item in
  -- front where there is room, and else evicts the last item if it is unlocked, for a new node at an
  -- address that is not null and holds no node at that time; it may be that of the evicted node.
  pub add_or_update_item-Refines :
      (c : FileCache) (s : Shelf)
      → Refines c s
      → Unused fresh c
      → (c' : FileCache) × (add_or_update_item fresh wd name buff len c
          ≡ ok (Spec.add_or_update name buff len wd s).1 c')
        × Refines c' (Spec.add_or_update name buff len wd s).0
  add_or_update_item-Refines c s r unused =
      let (p, e, f) = get_item-Found name c r.cells r.rep in
      elim f [ inl (z, n) ↦ add_absent c s r n unused | inr h ↦ update_present c s r p e h ]
