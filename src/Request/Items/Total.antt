-- ===== src/Request/Items/Total.antt =====
-- `extract_post_data_items` ends, and the places that it finds lie in the buffer or just behind it.
use network_server.Base.{
  ℕ, zero, suc, ◌+◌, ◌-◌, ◌<◌, ◌≤◌, ◌≡◌, refl, ◌∙◌, ap, sym, subst, false, ◌||◌, inl, inr, Option,
  none, some, List, [], ◌∷◌, ◌++◌, arith, length, Bytes, codes, ltb, ◌==◌, atoi, Bool-cases,
  Option-cases, ok, Run, Ends, gives, Ends-bind, or_fault-Ends, and_then,
}
use network_server.Request.{PostContent, HttpRequest, char_text, char_place}
use network_server.Request.Build.{double_break}
use network_server.Request.Items.{
  cut_at, cut_value, next_or_last, add_item, find_value, next_section, read_item, item_loop,
  is_empty, extract_post_data_items,
}
use network_server.Request.Items.Steps.{
  buffer_size, Within, Found, Same, Step, step_to, Step-bind, write_null-Step, memmem-Step,
  strchr_from-Step, buffer_bytes-Ends,
}

-- A result that ends a run.
done : {A : Type 0} {Q : A → Type 0} (a : A) (r : HttpRequest) → Q a → Step r Q (ok a r)
done a r q = gives (step_to refl, q)

cut_at-Step : (cut : Option ℕ) (r : HttpRequest) → Step r (λ _. Unit {0}) (cut_at cut r)
cut_at-Step none r = done tt r tt
cut_at-Step (some q) r = write_null-Step q r

cut_value-Step :
    (size p c : ℕ) (key : Bytes) (found : Option ℕ) (r : HttpRequest)
    → Found size p (length key) found
    → Step r (Within size) (cut_value (length key) c found r)
unfolding cut_value
cut_value-Step size p c key none r q = done none r tt
cut_value-Step size p c key (some place) r (from, inside) =
    Step-bind (strchr_from-Step (place + length key) c r) λ cut s e _.
      Step-bind (cut_at-Step cut s) λ _ t f _. done (some (place + length key)) t inside

module _ (size : ℕ) where
  -- The size of the buffer stays known.
  Step-then :
      {A B : Type 0} {Q : A → Type 0} {Q' : B → Type 0} {r : HttpRequest} {run : Run HttpRequest A}
      {k : A → HttpRequest → Run HttpRequest B}
      → buffer_size r ≡ size
      → Step r Q run
      → ((a : A) (s : HttpRequest) → buffer_size s ≡ size → Q a → Step s Q' (k a s))
      → Step r Q' (and_then run k)
  Step-then e first next = Step-bind first λ a s f q. next a s (f ∙ e) q

  find_value-Step :
      (data_ptr section : ℕ) (key : Bytes) (c : ℕ) (r : HttpRequest)
      → buffer_size r ≡ size
      → Step r (Within size) (find_value data_ptr section key c r)
  unfolding find_value
  find_value-Step data_ptr section key c r e =
      Step-then e (memmem-Step size data_ptr section key r e)
        λ found s e q. cut_value-Step size data_ptr c key found s q

  next_or_last-Step :
      (boundary_last : Bytes) (data_ptr max_ptr : ℕ) (next : Option ℕ) (r : HttpRequest)
      → buffer_size r ≡ size
      → Step r (λ _. Unit {0}) (next_or_last boundary_last data_ptr max_ptr next r)
  unfolding next_or_last
  next_or_last-Step boundary_last data_ptr max_ptr (some p) r e = done p r tt
  next_or_last-Step boundary_last data_ptr max_ptr none r e =
      Step-then e (memmem-Step size data_ptr (max_ptr - data_ptr) boundary_last r e)
        λ last s e q. done _ s tt

  next_section-Step :
      (boundary boundary_last : Bytes) (data_ptr max_ptr : ℕ) (r : HttpRequest)
      → buffer_size r ≡ size
      → Step r (λ _. Unit {0}) (next_section boundary boundary_last data_ptr max_ptr r)
  unfolding next_section
  next_section-Step boundary boundary_last data_ptr max_ptr r e =
      Step-then e (memmem-Step size data_ptr (max_ptr - data_ptr) boundary r e)
        λ next s e q. next_or_last-Step boundary_last data_ptr max_ptr next s e

  -- The places of an item lie in the buffer.
  pub record Inside (x : PostContent) : Type 0 where
    pub name_within : Within size x.name
    pub filename_within : Within size x.filename
    pub type_within : Within size x.item_type
    pub disposition_within : Within size x.content_disposition
    pub data_within : Within size x.data_at

  line_behind :
      (p : ℕ) (empty_line : Option ℕ)
      → Found size p 4 empty_line
      → Within size (elim empty_line [ none ↦ none | some p ↦ some (p + 4) ])
  line_behind p none q = tt
  line_behind p (some place) (from, inside) = inside

  read_item-Step :
      (boundary boundary_last : Bytes) (data_ptr max_ptr : ℕ) (r : HttpRequest)
      → buffer_size r ≡ size
      → Step r Inside (read_item boundary boundary_last data_ptr max_ptr r)
  unfolding read_item
  read_item-Step boundary boundary_last data_ptr max_ptr r e =
      Step-then e (next_section-Step boundary boundary_last data_ptr max_ptr r e) λ next s1 e _.
        Step-then e (write_null-Step (next - 2) s1) λ _ s2 e _.
          Step-then e (memmem-Step size data_ptr (max_ptr - data_ptr) double_break s2 e)
            λ line s3 e q3.
              Step-then e (find_value-Step data_ptr _ (codes "Content-Disposition: ") 59 s3 e)
                λ disposition s4 e q4.
                  Step-then e (find_value-Step data_ptr _ (codes "name=\"") 34 s4 e) λ name s5 e q5.
                    Step-then e (find_value-Step data_ptr _ (codes "filename=\"") 34 s5 e)
                      λ filename s6 e q6.
                        Step-then e (find_value-Step data_ptr _ (codes "Content-Type: ") 10 s6 e)
                          λ type s7 e q7. done _ s7 (record {
                            name_within = q5;
                            filename_within = q6;
                            type_within = q7;
                            disposition_within = q4;
                            data_within = line_behind data_ptr line q3;
                          })

  abbrev pub AllInside : List PostContent → Type 0
  AllInside [] = Unit {0}
  AllInside (x ∷ xs) = Inside x × AllInside xs

  AllInside-append :
      (xs : List PostContent) (x : PostContent) → AllInside xs → Inside x → AllInside (xs ++ x ∷ [])
  AllInside-append [] x _ inside = (inside, tt)
  AllInside-append (y ∷ xs) x (first, rest) inside = (first, AllInside-append xs x rest inside)

  -- The request's buffer has this size, and its items lie in it.
  pub record Sound (r : HttpRequest) : Type 0 where
    pub size_known : buffer_size r ≡ size
    pub items_inside : AllInside r.items

  Same-Sound : {r s : HttpRequest} → Same r s → Sound r → Sound s
  Same-Sound same sound = record {
    size_known = same.same_size ∙ sound.size_known;
    items_inside = subst AllInside (sym same.same_items) sound.items_inside;
  }

  add_item-Sound :
      (boundary boundary_last : Bytes) (data_ptr max_ptr : ℕ) (r : HttpRequest)
      → Sound r
      → Ends (λ _ s. Sound s) (add_item boundary boundary_last data_ptr max_ptr r)
  unfolding add_item
  add_item-Sound boundary boundary_last data_ptr max_ptr r sound =
      elim (Bool-cases (ltb data_ptr max_ptr)) [
        | inl more ↦
            rw (more, add_item)
              (Ends-bind (read_item-Step boundary boundary_last data_ptr max_ptr r sound.size_known)
                λ item s (same, inside).
                  let kept = Same-Sound same sound in
                  gives (record {
                    size_known = kept.size_known;
                    items_inside = AllInside-append s.items item kept.items_inside inside;
                  }))
        | inr over ↦ rw (over, add_item) (gives sound)
      ]

  item_loop-Sound :
      (boundary boundary_last : Bytes) (fuel item_ptr max_ptr : ℕ) (r : HttpRequest)
      → 1 ≤ length boundary
      → 1 ≤ fuel
      → size + 1 < item_ptr + fuel
      → Sound r
      → Ends (λ _ s. Sound s) (item_loop boundary boundary_last fuel item_ptr max_ptr r)
  unfolding item_loop
  item_loop-Sound boundary boundary_last zero item_ptr max_ptr r some_boundary fuelled enough
        sound =
      absurd (omega arith)
  item_loop-Sound boundary boundary_last (suc fuel) item_ptr max_ptr r some_boundary fuelled enough
        sound =
      Ends-bind (memmem-Step size item_ptr (max_ptr - item_ptr) boundary r sound.size_known)
        λ found s (same, q). elim (Option-cases found) [
          | inl nowhere ↦ rw (nowhere, item_loop) (gives (Same-Sound same sound))
          | inr (p, e) ↦
              let (from, inside) = subst (Found size item_ptr (length boundary)) e q in
              rw (e, item_loop)
                (Ends-bind
                  (add_item-Sound boundary boundary_last (p + length boundary) max_ptr s
                    (Same-Sound same sound))
                  λ _ t kept.
                    item_loop-Sound boundary boundary_last fuel (p + length boundary) max_ptr t
                      some_boundary (omega arith) (omega arith) kept)
        ]

some_bytes : (s : Bytes) → is_empty s ≡ false → 1 ≤ length s
some_bytes [] e = ground arith
some_bytes (b ∷ s) e = omega arith

-- The items of a POST body are extracted from any buffer, for any boundary and any length: the loop
-- ends, in undefined behaviour or with items whose pointers are null or lie in the buffer, its zero
-- byte included, if those of the items that were there do. The buffer keeps its size.
pub extract_post_data_items-Sound :
    (size : ℕ) (r : HttpRequest)
    → Sound size r
    → Ends (λ _ s. Sound size s) (extract_post_data_items r)
unfolding extract_post_data_items
extract_post_data_items-Sound size r sound =
    elim (Bool-cases (is_empty r.boundary_str || is_empty r.boundary_last_str)) [
      | inl missing ↦ rw (missing, extract_post_data_items) (gives sound)
      | inr given ↦
          rw (given, extract_post_data_items)
            (Ends-bind (or_fault-Ends (char_text r.content_length) r) λ text s (e, _).
              elim (Bool-cases (atoi text == 0)) [
                | inl no_length ↦ rw no_length (gives (subst (Sound size) (sym e) sound))
                | inr some_length ↦ rw some_length (
                    Ends-bind (or_fault-Ends (char_place r.content) s) λ place t (f, _).
                      Ends-bind (buffer_bytes-Ends t) λ mem u (g, m).
                        let kept : Sound size u = subst (Sound size) (sym (g ∙ f ∙ e)) sound in
                        let known : buffer_size t ≡ size =
                          ap buffer_size (sym g) ∙ kept.size_known in
                        item_loop-Sound size r.boundary_str r.boundary_last_str (length mem + 1)
                          place _ u (some_bytes r.boundary_str (ground (arith, given)))
                          (omega arith) (omega (arith, m, known)) kept)
              ])
    ]
