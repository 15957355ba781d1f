-- ===== src/Lru/Refinement.antt =====
-- Each operation of the linked cache does what its specification says, and never meets an invalid
-- pointer.
use network_server.Base.{
  ℕ, ◌≡◌, ◌≢◌, refl, sym, subst, ap, ◌∙◌, inl, inr, true, false, Option, none, some, [], ◌∷◌, ◌++◌,
  arith, ◌==◌, Bool-cases, ok, ℤ, Bytes,
}
use network_server.Lru.{
  Ptr, null, Item, ItemNode, FileCache, has_name, holds_lock, same_watch, load, store, remove_node,
  remove_item, promote, unlock_item, get_item, get_and_lock_item, process_inotify_event,
}
use network_server.Lru.Cells.{Cells, items, first, last, node, Rep}
use network_server.Lru.Find.{Rep-Place, load-ok, NoMatch, Hit, get_item-Found, search_lem}
use network_server.Lru.Promote.{put_item, Rep-put_item, promote_lem}
use network_server.Lru.Spec.{
  Shelf, first_match, remove_first, update_first, remove_match, discard, lock,
}
use network_server.Lru.Spec
use network_server.Lru.Refines.{
  Refines, first_match-NoMatch, update_first-NoMatch, remove_first-hit, remove-Hit, remove_miss,
  put_hit, Hit-load, first-Hit,
}

-- `remove_item` removes the item of that name unless it is locked, and says whether it is gone.
pub remove_item-Refines :
    (name : Bytes) (c : FileCache) (s : Shelf)
    → Refines c s
    → (c' : FileCache) × (remove_item name c ≡ ok (Spec.remove name s).1 c')
      × Refines c' (Spec.remove name s).0
unfolding remove_item remove_node Spec.remove
remove_item-Refines name c s r =
    let (p, e, f) = get_item-Found name c r.cells r.rep in
    elim f [
      | inl (z, n) ↦ rw (e, z, remove_miss (has_name name) c s r n) (c, refl, r)
      | inr h ↦ rw e (remove-Hit (has_name name) c s r p h)
    ]

-- `unlock_item` takes one lock off the first item of that name that has one.
pub unlock_item-Refines :
    (name : Bytes) (c : FileCache) (s : Shelf)
    → Refines c s
    → (c' : FileCache) × (unlock_item name c ≡ ok tt c') × Refines c' (Spec.unlock name s)
unfolding unlock_item Spec.unlock store
unlock_item-Refines name c s r =
    let (p, e, f) = search_lem (holds_lock name) c r.cells r.rep in
    elim f [
      | inl (z, n) ↦ (
        c,
        rw (e, z) refl,
        record {
          cells = r.cells;
          rep = r.rep;
          same_items = ap (update_first _ _) r.same_items ∙ update_first-NoMatch _ _ r.cells n;
          same_limit = r.same_limit;
          same_freed = r.same_freed;
          same_unwatched = r.same_unwatched;
        },
      )
      | inr h ↦
          let w = Hit-load r.rep h in
          let ne : (p == null) ≡ false = ground (arith, w.ne_null) in
          (_, rw (e, ne, load-ok w) refl, put_hit (holds_lock name) _ c s r p h)
    ]

-- What the caller is handed: the null pointer, or a node that holds the item.
abbrev pub Handed : FileCache → Ptr → Option Item → Type 0
Handed c p none = p ≡ null
Handed c p (some x) = (p ≢ null) × ((n : ItemNode) × (c.nodes p ≡ some n) × (n.item ≡ x))

Handed-head :
    (c : FileCache) (p : Ptr) (x : Item) (zs : Cells) → Rep c ((p, x) ∷ zs) → Handed c p (some x)
Handed-head c p x zs rep = let w = Rep-Place c [] p x zs rep in (w.ne_null, (_, w.holds, refl))

abbrev Locks : Bytes → FileCache → Ptr → Cells → Type 0
Locks name c p xs =
    (c' : FileCache) × (get_and_lock_item name c ≡ ok p c')
    × Rep c' xs
    × (c'.freed ≡ c.freed)
    × (c'.unwatched ≡ c.unwatched)
    × (c'.max_num_items ≡ c.max_num_items)

run_locked :
    (name : Bytes) (c c' : FileCache) (p next prev : Ptr) (x : Item)
    → get_item name c ≡ ok p c
    → (p == null) ≡ false
    → load p c ≡ ok (node next prev x) c
    → x.outdated ≡ false
    → (p == c.head) ≡ false
    → promote p (put_item c p next prev (lock x)) ≡ ok tt c'
    → get_and_lock_item name c ≡ ok p c'
unfolding get_and_lock_item store lock
run_locked name c c' p next prev x e ne at current behind moved = ground arith

-- The lock is taken: a node behind the head moves to the front.
lock_at :
    (name : Bytes) (c : FileCache) (p : Ptr) (x : Item) (ys zs : Cells)
    → Rep c (ys ++ (p, x) ∷ zs)
    → x.outdated ≡ false
    → get_item name c ≡ ok p c
    → Locks name c p ((p, lock x) ∷ ys ++ zs)
unfolding get_and_lock_item store lock
lock_at name c p x [] zs rep current e =
    let w = Rep-Place c [] p x zs rep in
    let ne : (p == null) ≡ false = ground (arith, w.ne_null) in
    let at_head : (p == c.head) ≡ true = ground (arith, rep.head) in
    (
      put_item c p (first zs null) null (lock x),
      rw (e, ne, load-ok w) (simp current (rw at_head refl)),
      Rep-put_item c [] p x (lock x) zs rep,
      refl,
      refl,
      refl,
    )
lock_at name c p x ((q, y) ∷ ys) zs rep current e =
    let w = Rep-Place c ((q, y) ∷ ys) p x zs rep in
    let ne : (p == null) ≡ false = ground (arith, w.ne_null) in
    let behind : (p == c.head) ≡ false = ground (arith, rep.head, w.out_before) in
    let locked = put_item c p (first zs null) (last q ys) (lock x) in
    let (c', moved, rep', kf, ku, kl) =
      promote_lem locked p (lock x) w.ne_null ((q, y) ∷ ys) zs (λ n. cc)
        (Rep-put_item c ((q, y) ∷ ys) p x (lock x) zs rep) in
    (
      c',
      run_locked name c c' p (first zs null) (last q ys) x e ne (load-ok w) current behind moved,
      rep',
      kf,
      ku,
      kl,
    )

-- `get_and_lock_item` hands out the item of that name with one more lock and makes it the head; an
-- outdated one is removed, if it is not in use, and not handed out.
pub get_and_lock_item-Refines :
    (name : Bytes) (c : FileCache) (s : Shelf)
    → Refines c s
    → (p : Ptr) × (c' : FileCache) × (get_and_lock_item name c ≡ ok p c')
      × Refines c' (Spec.get_and_lock name s).0
      × Handed c' p (Spec.get_and_lock name s).1
unfolding get_and_lock_item Spec.get_and_lock
get_and_lock_item-Refines name c s r =
    let (p, e, f) = get_item-Found name c r.cells r.rep in
    elim f [
      | inl (z, n) ↦
          rw (ap (first_match _) r.same_items ∙ first_match-NoMatch _ r.cells n, Spec.get_and_lock)
            (null, c, rw (e, z) refl, r, refl)
      | inr h ↦
          let w = Hit-load r.rep h in
          let ne : (p == null) ≡ false = ground (arith, w.ne_null) in
          rw (first-Hit _ c s r p h, Spec.get_and_lock)
            (elim (Bool-cases h.item.outdated) [
              | inl old ↦ rw old (
                  let (c', gone, r') = remove-Hit (has_name name) c s r p h in
                  (null, c', rw (e, ne, load-ok w, old, gone) refl, r', refl))
              | inr current ↦ simp current (
                  let (c', run, rep, kf, ku, kl) =
                    lock_at name c p h.item h.before h.after (subst (Rep c) h.split r.rep) current
                      e in
                  (
                    p,
                    c',
                    run,
                    record {
                      cells = (p, lock h.item) ∷ h.before ++ h.after;
                      rep = rep;
                      same_items =
                          ap (λ t. lock h.item ∷ remove_first (has_name name) t)
                            (r.same_items ∙ ap items h.split)
                          ∙ ap (◌∷◌ (lock h.item)) (
                              remove_first-hit (has_name name) p h.item h.after h.hits h.before
                                h.misses);
                      same_limit = r.same_limit ∙ sym kl;
                      same_freed = r.same_freed ∙ sym kf;
                      same_unwatched = r.same_unwatched ∙ sym ku;
                    },
                    Handed-head c' p (lock h.item) (h.before ++ h.after) rep,
                  ))
            ])
    ]

-- With no node of that watch the shelf stays as it is.
marked_miss :
    (wd : ℤ) (c : FileCache) (s : Shelf) (r : Refines c s)
    → NoMatch (same_watch wd) r.cells
    → Refines c
        (remove_match
          (same_watch wd)
          (record s { items = update_first (same_watch wd) Spec.mark_outdated s.items })).0
marked_miss wd c s r n =
    let kept : Refines c
        (record s { items = update_first (same_watch wd) Spec.mark_outdated s.items }) =
      record {
        cells = r.cells;
        rep = r.rep;
        same_items = ap (update_first _ _) r.same_items ∙ update_first-NoMatch _ _ r.cells n;
        same_limit = r.same_limit;
        same_freed = r.same_freed;
        same_unwatched = r.same_unwatched;
      } in
    rw (remove_miss (same_watch wd) c _ kept n) kept

-- Marking keeps the watch, so the marked item is the first match again.
marked-Hit :
    (wd : ℤ) (xs : Cells) (p : Ptr) (h : Hit (same_watch wd) xs p)
    → Hit (same_watch wd) (h.before ++ (p, Spec.mark_outdated h.item) ∷ h.after) p
unfolding Spec.mark_outdated same_watch
marked-Hit wd xs p h = record {
  before = h.before;
  item = Spec.mark_outdated h.item;
  after = h.after;
  split = refl;
  hits = h.hits;
  misses = h.misses;
}

remove_marked :
    (wd : ℤ) (c : FileCache) (s : Shelf) (r : Refines c s) (p : Ptr)
    (h : Hit (same_watch wd) r.cells p)
    → let t = record s { items = update_first (same_watch wd) Spec.mark_outdated s.items } in
      (c' : FileCache) × (remove_node p
          (put_item c p (first h.after null) (last null h.before) (Spec.mark_outdated h.item))
        ≡ ok (remove_match (same_watch wd) t).1 c')
      × Refines c' (remove_match (same_watch wd) t).0
unfolding put_hit
remove_marked wd c s r p h =
    remove-Hit (same_watch wd) _ _ (put_hit (same_watch wd) Spec.mark_outdated c s r p h) p
      (marked-Hit wd r.cells p h)

-- `process_inotify_event` marks the first item with that watch and removes it unless it is locked.
pub process_inotify_event-Refines :
    (event : Option (ℕ × ℤ)) (c : FileCache) (s : Shelf)
    → Refines c s
    → (c' : FileCache) × (process_inotify_event event c ≡ ok tt c')
      × Refines c' (Spec.process_event event s)
unfolding process_inotify_event Spec.process_event store Spec.mark_outdated
process_inotify_event-Refines none c s r = (c, refl, r)
process_inotify_event-Refines (some (mask, wd)) c s r = elim (Bool-cases (mask == 0)) [
  | inl quiet ↦ rw quiet (c, refl, r)
  | inr fired ↦ rw fired (
      let (p, e, f) = search_lem (same_watch wd) c r.cells r.rep in
      elim f [
        | inl (z, n) ↦ rw (e, z) (c, refl, marked_miss wd c s r n)
        | inr h ↦
            let w = Hit-load r.rep h in
            let ne : (p == null) ≡ false = ground (arith, w.ne_null) in
            let (c', gone, r') = remove_marked wd c s r p h in
            (c', rw (e, ne, load-ok w, gone) refl, r')
      ])
]
