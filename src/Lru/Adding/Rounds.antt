-- ===== src/Lru/Adding/Rounds.antt =====
-- The rounds of `add_or_update_item` for a name that the cache does not have.
use network_server.Base.{
  ℕ, suc, ◌<◌, ◌≤◌, ◌≡◌, ◌≢◌, refl, subst, ap, ◌∙◌, inl, inr, Bool, true, false, none, some, [],
  ◌∷◌, ◌++◌, arith, length, length-append, append-nil, ok, Run, ℤ, Bytes, ltb, lt→ltb, ge→ltb,
}
use network_server.Lru.{
  Ptr, null, Item, FileCache, has_name, remove_node, get_item, add_or_update, new_item,
}
use network_server.Lru.Cells.{Cells, items, has, Rep, denote_out, last-append}
use network_server.Lru.Find.{Rep-Place, NoMatch, get_item-Found}
use network_server.Lru.Remove.{remove_node-Removed}
use network_server.Lru.Add.{add_front_lem}
use network_server.Lru.Spec.{last_item, drop_last}

pub last_item-concat :
    (ys : Cells) (p : Ptr) (x : Item) → last_item (items (ys ++ (p, x) ∷ [])) ≡ some x
unfolding last_item
last_item-concat [] p x = refl
last_item-concat ((q, y) ∷ []) p x = refl
last_item-concat ((q, y) ∷ (r, z) ∷ ys) p x = last_item-concat ((r, z) ∷ ys) p x

pub drop_last-concat :
    (ys : Cells) (p : Ptr) (x : Item) → drop_last (items (ys ++ (p, x) ∷ [])) ≡ items ys
unfolding drop_last
drop_last-concat [] p x = refl
drop_last-concat ((q, y) ∷ []) p x = refl
drop_last-concat ((q, y) ∷ (r, z) ∷ ys) p x = ap (◌∷◌ y) (drop_last-concat ((r, z) ∷ ys) p x)

pub NoMatch-front : (test : Item → Bool) (ys zs : Cells) → NoMatch test (ys ++ zs) → NoMatch test ys
NoMatch-front test [] zs n = tt
NoMatch-front test ((p, x) ∷ ys) zs n = (n.0, NoMatch-front test ys zs n.1)

pub no_hit :
    (test : Item → Bool) (p : Ptr) (x : Item) (zs : Cells)
    → test x ≡ true
    → (ys : Cells) → NoMatch test (ys ++ (p, x) ∷ zs)
    → ⊥
no_hit test p x zs t [] m = ground (arith, m.0)
no_hit test p x zs t ((q, y) ∷ ys) m = no_hit test p x zs t ys m.1

-- A search in a cache with no match ends at the null pointer.
pub get_item-none :
    (name : Bytes) (c : FileCache) (xs : Cells)
    → Rep c xs
    → NoMatch (has_name name) xs
    → get_item name c ≡ ok null c
get_item-none name c xs rep n =
    let (p, e, f) = get_item-Found name c xs rep in
    elim f [
      | inl (z, _) ↦ e ∙ ap (λ q. ok q c) z
      | inr h ↦ absurd (no_hit _ p h.item h.after h.hits h.before (subst (NoMatch _) h.split n))
    ]

abbrev pub AddsNew : FileCache → Run FileCache Bool → Ptr → Item → Cells → Type 0
AddsNew c r fresh x xs =
    (c' : FileCache) × (r ≡ ok true c')
    × Rep c' ((fresh, x) ∷ xs)
    × (c'.freed ≡ c.freed)
    × (c'.unwatched ≡ c.unwatched)
    × (c'.max_num_items ≡ c.max_num_items)

module _ (fresh : Ptr) (wd : ℤ) (name : Bytes) (buff : Ptr) (len : ℕ) (ne : fresh ≢ null) where
  -- A round with room for the new node.
  pub add_round :
      (fuel : ℕ) (c : FileCache) (xs : Cells)
      → Rep c xs
      → NoMatch (has_name name) xs
      → c.nodes fresh ≡ none
      → length xs < c.max_num_items
      → AddsNew c
          (add_or_update (suc fuel) fresh wd name buff len c)
          fresh
          (new_item name buff len wd)
          xs
  unfolding add_or_update
  add_round fuel c xs rep n unused room =
      let (c', run, a, b, d, e) =
        add_front_lem c fresh (new_item name buff len wd) ne unused xs rep room in
      let fits : ltb c.num_items c.max_num_items ≡ true = lt→ltb _ _ (omega (arith, rep.count)) in
      (c', rw (get_item-none name c xs rep n, fits) run, a, b, d, e)

  -- A round on a full cache whose last node can be removed, and one where it is locked.
  pub evict_round :
      (fuel : ℕ) (c c1 : FileCache) (p : Ptr)
      → get_item name c ≡ ok null c
      → ltb c.num_items c.max_num_items ≡ false
      → c.tail ≡ p
      → p ≢ null
      → remove_node p c ≡ ok true c1
      → add_or_update (suc fuel) fresh wd name buff len c
        ≡ add_or_update fuel fresh wd name buff len c1
  unfolding add_or_update
  evict_round fuel c c1 p e full t np gone = ground arith

  pub locked_round :
      (fuel : ℕ) (c : FileCache) (p : Ptr)
      → get_item name c ≡ ok null c
      → ltb c.num_items c.max_num_items ≡ false
      → c.tail ≡ p
      → p ≢ null
      → remove_node p c ≡ ok false c
      → add_or_update (suc fuel) fresh wd name buff len c ≡ ok false c
  unfolding add_or_update
  locked_round fuel c p e full t np kept = ground arith

  -- A full cache whose last node is unlocked: that node goes, and the second round has room.
  pub add_evicting :
      (fuel : ℕ) (c : FileCache) (ys : Cells) (p : Ptr) (x : Item)
      → Rep c (ys ++ (p, x) ∷ [])
      → NoMatch (has_name name) (ys ++ (p, x) ∷ [])
      → has fresh ys ≡ false
      → c.max_num_items ≤ length (ys ++ (p, x) ∷ [])
      → x.num_locks ≡ 0
      → (c' : FileCache) × (add_or_update (suc (suc fuel)) fresh wd name buff len c ≡ ok true c')
        × Rep c' ((fresh, new_item name buff len wd) ∷ ys)
        × (c'.freed ≡ x.buff ∷ c.freed)
        × (c'.unwatched ≡ x.watch ∷ c.unwatched)
        × (c'.max_num_items ≡ c.max_num_items)
  add_evicting fuel c ys p x rep n out full free =
      let (c1, gone, left) = remove_node-Removed c p x free ys [] rep in
      let kept : Rep c1 ys = rw append-nil at left.rep in
      let (c', run, a, b, d, e) =
        add_round fuel c1 ys kept (NoMatch-front _ ys _ n)
          (kept.nodes fresh ∙ denote_out null ys null fresh out)
          (omega (arith, left.limit, rep.within, length-append ys ((p, x) ∷ []))) in
      (
        c',
        evict_round (suc fuel) c c1 p (get_item-none name c _ rep n)
              (ge→ltb _ _ (omega (arith, rep.count))) (rep.tail ∙ last-append null ys _)
              (Rep-Place c ys p x [] rep).ne_null gone
            ∙ run,
        a,
        b ∙ left.freed,
        d ∙ left.unwatched,
        e ∙ left.limit,
      )
