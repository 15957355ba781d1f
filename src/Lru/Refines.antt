-- ===== src/Lru/Refines.antt =====
-- What it is for a linked cache to refine its specification, and the lemmas on the first match that
-- the refinement proofs share.
use network_server.Base.{
  ◌≡◌, refl, sym, subst, ap, ◌∙◌, inl, inr, Bool, true, none, some, [], ◌∷◌, ◌++◌, arith, ◌==◌,
  Bool-cases, ==_iff, ok,
}
use network_server.Lru.{Ptr, null, Item, FileCache, remove_node}
use network_server.Lru.Cells.{Cells, items, first, last, Rep}
use network_server.Lru.Find.{Place, Rep-Place, NoMatch, Hit}
use network_server.Lru.Remove.{remove_node-Removed, remove_node-locked}
use network_server.Lru.Promote.{put_item, Rep-put_item}
use network_server.Lru.Spec.{Shelf, first_match, remove_first, update_first, remove_match}

-- The cache holds the items of the shelf, in its order, and has given back the same resources.
pub record Refines (c : FileCache) (s : Shelf) : Type 0 where
  pub cells : Cells
  pub rep : Rep c cells
  pub same_items : s.items ≡ items cells
  pub same_limit : s.limit ≡ c.max_num_items
  pub same_freed : s.freed ≡ c.freed
  pub same_unwatched : s.unwatched ≡ c.unwatched

pub first_match-NoMatch :
    (test : Item → Bool) (xs : Cells) → NoMatch test xs → first_match test (items xs) ≡ none
unfolding first_match
first_match-NoMatch test [] n = refl
first_match-NoMatch test ((p, x) ∷ xs) n = rw n.0 (first_match-NoMatch test xs n.1)

pub update_first-NoMatch :
    (test : Item → Bool) (f : Item → Item) (xs : Cells)
    → NoMatch test xs
    → update_first test f (items xs) ≡ items xs
unfolding update_first
update_first-NoMatch test f [] n = refl
update_first-NoMatch test f ((p, x) ∷ xs) n =
    rw n.0 (ap (◌∷◌ x) (update_first-NoMatch test f xs n.1))

module _ (test : Item → Bool) (p : Ptr) (x : Item) (zs : Cells) (hit : test x ≡ true) where
  pub first_match-hit :
      (ys : Cells) → NoMatch test ys → first_match test (items (ys ++ (p, x) ∷ zs)) ≡ some x
  unfolding first_match
  first_match-hit [] n = rw hit refl
  first_match-hit ((q, y) ∷ ys) n = rw n.0 (first_match-hit ys n.1)

  pub remove_first-hit :
      (ys : Cells)
      → NoMatch test ys
      → remove_first test (items (ys ++ (p, x) ∷ zs)) ≡ items (ys ++ zs)
  unfolding remove_first
  remove_first-hit [] n = rw hit refl
  remove_first-hit ((q, y) ∷ ys) n = rw n.0 (ap (◌∷◌ y) (remove_first-hit ys n.1))

  pub update_first-hit :
      (f : Item → Item) (ys : Cells)
      → NoMatch test ys
      → update_first test f (items (ys ++ (p, x) ∷ zs)) ≡ items (ys ++ (p, f x) ∷ zs)
  unfolding update_first
  update_first-hit f [] n = rw hit refl
  update_first-hit f ((q, y) ∷ ys) n = rw n.0 (ap (◌∷◌ y) (update_first-hit f ys n.1))

-- `remove_node` at the first item that passes the test.
pub remove-Hit :
    (test : Item → Bool) (c : FileCache) (s : Shelf) (r : Refines c s) (p : Ptr)
    → Hit test r.cells p
    → (c' : FileCache) × (remove_node p c ≡ ok (remove_match test s).1 c')
      × Refines c' (remove_match test s).0
unfolding remove_match
remove-Hit test c s r p h =
    let open_rep = subst (Rep c) h.split r.rep in
    let matched : first_match test s.items ≡ some h.item =
      ap (first_match test) (r.same_items ∙ ap items h.split)
      ∙ first_match-hit test p h.item h.after h.hits h.before h.misses in
    rw (matched, remove_match)
      (elim (Bool-cases (h.item.num_locks == 0)) [
        | inl free ↦ rw free (
            let (c', e, gone) =
              remove_node-Removed c p h.item ((==_iff _ 0).0 free) h.before h.after open_rep in
            (
              c',
              e,
              record {
                cells = h.before ++ h.after;
                rep = gone.rep;
                same_items =
                    ap (remove_first test) (r.same_items ∙ ap items h.split)
                    ∙ remove_first-hit test p h.item h.after h.hits h.before h.misses;
                same_limit = r.same_limit ∙ sym gone.limit;
                same_freed = ap (◌∷◌ h.item.buff) r.same_freed ∙ sym gone.freed;
                same_unwatched = ap (◌∷◌ h.item.watch) r.same_unwatched ∙ sym gone.unwatched;
              },
            ))
        | inr held ↦
            rw held
              (c, remove_node-locked c h.before p h.item h.after (λ e. ground arith) open_rep, r)
      ])

-- The result of `remove_node` when the search found nothing.
pub remove_miss :
    (test : Item → Bool) (c : FileCache) (s : Shelf) (r : Refines c s)
    → NoMatch test r.cells
    → remove_match test s ≡ (s, true)
unfolding remove_match
remove_miss test c s r n =
    rw (ap (first_match test) r.same_items ∙ first_match-NoMatch test r.cells n, remove_match) refl

-- Writing the item of the first match.
unfoldable pub put_hit :
    (test : Item → Bool) (f : Item → Item) (c : FileCache) (s : Shelf) (r : Refines c s) (p : Ptr)
    (h : Hit test r.cells p)
    → Refines
        (put_item c p (first h.after null) (last null h.before) (f h.item))
        (record s { items = update_first test f s.items })
put_hit test f c s r p h = record {
  cells = h.before ++ (p, f h.item) ∷ h.after;
  rep = Rep-put_item c h.before p h.item (f h.item) h.after (subst (Rep c) h.split r.rep);
  same_items =
      ap (update_first test f) (r.same_items ∙ ap items h.split)
      ∙ update_first-hit test p h.item h.after h.hits f h.before h.misses;
  same_limit = r.same_limit;
  same_freed = r.same_freed;
  same_unwatched = r.same_unwatched;
}

pub Hit-load :
    {test : Item → Bool} {c : FileCache} {xs : Cells} {p : Ptr}
    → Rep c xs
    → (h : Hit test xs p) → Place c h.before p h.item h.after
Hit-load {c} {p} rep h = Rep-Place c h.before p h.item h.after (subst (Rep c) h.split rep)

pub first-Hit :
    (test : Item → Bool) (c : FileCache) (s : Shelf) (r : Refines c s) (p : Ptr)
    (h : Hit test r.cells p)
    → first_match test s.items ≡ some h.item
first-Hit test c s r p h =
    ap (first_match test) (r.same_items ∙ ap items h.split)
    ∙ first_match-hit test p h.item h.after h.hits h.before h.misses
