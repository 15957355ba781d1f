-- ===== src/Lru/Find.antt =====
-- Reading a node of a represented cache, and the search loops.
use network_server.Base.{
  ℕ, zero, suc, ◌+◌, ◌<◌, ◌≡◌, ◌≢◌, refl, sym, subst, ◌∙◌, ◌⊎◌, inl, inr, Bool, true, false, some,
  [], ◌∷◌, ◌++◌, arith, ◌==◌, length, append_assoc, append-nil, Bool-cases, ==_self, ok, Bytes,
}
use network_server.Lru.{Ptr, null, Item, FileCache, load, find_node, get_item, has_name}
use network_server.Lru.Cells.{
  Cells, has, first, last, node, Distinct, Rep, denote-append, Distinct-append,
}

-- Facts of the place of one node in a represented list.
pub record Place (c : FileCache) (ys : Cells) (p : Ptr) (x : Item) (zs : Cells) : Type 0 where
  pub ne_null : p ≢ null
  pub out_before : has p ys ≡ false
  pub out_after : has p zs ≡ false
  pub distinct_before : Distinct ys
  pub distinct_after : Distinct zs
  pub apart : (q : Ptr) → has q ys ≡ true → has q zs ≡ false
  pub holds : c.nodes p ≡ some (node (first zs null) (last null ys) x)

place :
    (c : FileCache) (ys : Cells) (p : Ptr) (x : Item) (zs : Cells)
    → Rep c (ys ++ (p, x) ∷ zs)
    → Place c ys p x zs
place c ys p x zs r =
    let (dy, (ne, out, dz), apart) = Distinct-append ys ((p, x) ∷ zs) r.distinct in
    let before : has p ys ≡ false = elim (Bool-cases (has p ys)) [
      | inl h ↦ absurd (ground (arith, apart p h, ==_self p))
      | inr h ↦ h
    ] in
    record {
      ne_null = ne;
      out_before = before;
      out_after = out;
      distinct_before = dy;
      distinct_after = dz;
      apart = λ q h. ground (arith, apart q h);
      holds = r.nodes p ∙ denote-append null ys ((p, x) ∷ zs) null p ∙ rw (before, ==_self p) refl;
    }

pub Rep-Place :
    (c : FileCache) (ys : Cells) (p : Ptr) (x : Item) (zs : Cells)
    → Rep c (ys ++ (p, x) ∷ zs)
    → Place c ys p x zs
Rep-Place c ys p x zs r = place c ys p x zs r

pub load-ok :
    {c : FileCache} {ys zs : Cells} {p : Ptr} {x : Item}
    → Place c ys p x zs
    → load p c ≡ ok (node (first zs null) (last null ys) x) c
unfolding load
load-ok {p} w = ground (arith, w.ne_null, w.holds)

abbrev pub NoMatch : (Item → Bool) → Cells → Type 0
NoMatch test [] = Unit {0}
NoMatch test ((p, x) ∷ xs) = (test x ≡ false) × NoMatch test xs

NoMatch-concat :
    (test : Item → Bool) (ys : Cells) (p : Ptr) (x : Item)
    → NoMatch test ys
    → test x ≡ false
    → NoMatch test (ys ++ (p, x) ∷ [])
NoMatch-concat test [] p x n h = (h, tt)
NoMatch-concat test ((q, y) ∷ ys) p x n h = (n.0, NoMatch-concat test ys p x n.1 h)

-- The first item that passes the test is that of node `p`.
pub record Hit (test : Item → Bool) (xs : Cells) (p : Ptr) : Type 0 where
  pub before : Cells
  pub item : Item
  pub after : Cells
  pub split : xs ≡ before ++ (p, item) ∷ after
  pub hits : test item ≡ true
  pub misses : NoMatch test before

abbrev pub Found : (Item → Bool) → Cells → Ptr → Type 0
Found test xs p = ((p ≡ null) × NoMatch test xs) ⊎ Hit test xs p

-- The loop stands at the first of `zs`, and none of `ys` passed.
find_node-Found :
    (test : Item → Bool) (c : FileCache) (ys zs : Cells) (fuel : ℕ)
    → Rep c (ys ++ zs)
    → NoMatch test ys
    → length zs < fuel
    → (p : Ptr) × (find_node test fuel (first zs null) c ≡ ok p c) × Found test (ys ++ zs) p
unfolding find_node
find_node-Found test c ys zs zero r n h = absurd (omega arith)
find_node-Found test c ys [] (suc fuel) r n h = (null, refl, inl (refl, rw append-nil n))
find_node-Found test c ys ((p, x) ∷ zs) (suc fuel) r n h =
    let w = Rep-Place c ys p x zs r in
    let ne : (p == null) ≡ false = ground (arith, w.ne_null) in
    elim (Bool-cases (test x)) [
      | inl hit ↦ (
        p,
        rw (ne, load-ok w, hit) refl,
        inr (record { before = ys; item = x; after = zs; split = refl; hits = hit; misses = n }),
      )
      | inr miss ↦
          let (q, e, f) =
            find_node-Found test c (ys ++ (p, x) ∷ []) zs fuel (rw append_assoc r)
              (NoMatch-concat test ys p x n miss) (omega arith) in
          (q, rw (ne, load-ok w, miss) e, rw append_assoc at f)
    ]

-- A search from the head of a represented cache ends, changes nothing, and finds the first match.
pub search_lem :
    (test : Item → Bool) (c : FileCache) (xs : Cells)
    → Rep c xs
    → (p : Ptr) × (find_node test (c.num_items + 1) c.head c ≡ ok p c) × Found test xs p
search_lem test c xs r =
    subst (λ h. (p : Ptr) × (find_node test (c.num_items + 1) h c ≡ ok p c) × Found test xs p)
      (sym r.head) (find_node-Found test c [] xs (c.num_items + 1) r tt (omega (arith, r.count)))

pub get_item-Found :
    (name : Bytes) (c : FileCache) (xs : Cells)
    → Rep c xs
    → (p : Ptr) × (get_item name c ≡ ok p c) × Found (has_name name) xs p
unfolding get_item
get_item-Found name c xs r = search_lem (has_name name) c xs r
