-- ===== src/Server/Vectors/Remainder.antt =====
-- The memory that a vector of buffers names, and what `remaining` keeps of it.
use network_server.Base.{
  ℕ, zero, suc, ◌+◌, ◌-◌, ◌^◌, ◌<◌, ◌≤◌, ◌≡◌, refl, sym, ap, ◌∙◌, inl, inr, List, [], ◌∷◌, ◌++◌,
  arith, ltb, ◌==◌, add_size, length, drop, length-append, Bool-cases, ltb→lt, ltb→ge, ==_iff,
}
use network_server.Lru.{Ptr}
use network_server.Server.{Iovec}
use network_server.Server.Vectors.{remaining, pad, total_length}

unfoldable pub span : Ptr → ℕ → List Ptr
span b zero = []
span b (suc n) = b ∷ span (b + 1) n

-- The addresses of the bytes, in the order in which a vector operation uses them.
unfoldable pub addresses : List Iovec → List Ptr
addresses [] = []
addresses (v ∷ vs) = span v.iov_base v.iov_len ++ addresses vs

abbrev pub sum_lengths : List Iovec → ℕ
sum_lengths [] = 0
sum_lengths (v ∷ vs) = v.iov_len + sum_lengths vs

length-span : (b n : ℕ) → length (span b n) ≡ n
unfolding span
length-span b zero = refl
length-span b (suc n) = ap suc (length-span (b + 1) n)

pub length-addresses : (vs : List Iovec) → length (addresses vs) ≡ sum_lengths vs
unfolding addresses
length-addresses [] = refl
length-addresses (v ∷ vs) = omega (
  arith,
  length-append (span v.iov_base v.iov_len) (addresses vs),
  length-span v.iov_base v.iov_len,
  length-addresses vs,
)

drop-span : (k b n : ℕ) → drop k (span b n) ≡ span (b + k) (n - k)
unfolding span
drop-span zero b n = ground arith
drop-span (suc k) b zero = ground arith
drop-span (suc k) b (suc n) =
    drop-span k (b + 1) n
    ∙ ap (λ t. span t (n - k)) (omega arith)
    ∙ ap (span (b + suc k)) (omega arith)

drop_nil {ℓ} : {A : Type ℓ} (n : ℕ) → drop {A = A} n [] ≡ []
drop_nil zero = refl
drop_nil (suc n) = refl

drop-append {ℓ} :
    {A : Type ℓ} (n : ℕ) (xs ys : List A) → drop n (xs ++ ys) ≡ drop n xs ++ drop (n - length xs) ys
drop-append n [] ys = rw drop_nil (let e : n ≡ n - 0 = omega arith in ap (λ t. drop t ys) e)
drop-append zero (x ∷ xs) ys =
    let e : 0 ≡ 0 - suc (length xs) = omega arith in ap (λ t. x ∷ (xs ++ drop t ys)) e
drop-append (suc n) (x ∷ xs) ys =
    let e : n - length xs ≡ suc n - suc (length xs) = omega arith in
    drop-append n xs ys ∙ ap (λ t. drop n xs ++ drop t ys) e

-- What is left of one buffer and of those behind it.
drop-span-append :
    (d b n : ℕ) (rest : List Ptr)
    → drop d (span b n ++ rest) ≡ span (b + d) (n - d) ++ drop (d - n) rest
drop-span-append d b n rest = drop-append d (span b n) rest ∙ rw (drop-span, length-span) refl

drop_none {ℓ} : {A : Type ℓ} (n : ℕ) (xs : List A) → n ≡ 0 → xs ≡ drop n xs
drop_none zero xs e = refl
drop_none (suc n) xs e = absurd (omega arith)

span_none : (b n : ℕ) → n ≡ 0 → span b n ≡ []
unfolding span
span_none b zero e = refl
span_none b (suc n) e = absurd (omega arith)

length-remaining : (total read : ℕ) (vs : List Iovec) → length (remaining total read vs) ≤ length vs
unfolding remaining
length-remaining total read [] = omega arith
length-remaining total read (v ∷ vs) =
    ground (arith, length-remaining total (add_size read v.iov_len) vs)

addresses-pad : (n : ℕ) (vs : List Iovec) → length vs ≤ n → addresses (pad n vs) ≡ addresses vs
unfolding addresses pad span
addresses-pad zero [] h = refl
addresses-pad zero (v ∷ vs) h = absurd (omega arith)
addresses-pad (suc n) [] h = addresses-pad n [] (omega arith)
addresses-pad (suc n) (v ∷ vs) h =
    ap (◌++◌ (span v.iov_base v.iov_len)) (addresses-pad n vs (omega arith))

addresses-remaining :
    (total read : ℕ) (vs : List Iovec)
    → read ≤ total
    → read + sum_lengths vs < 2 ^ 64
    → addresses (remaining total read vs) ≡ drop (total - read) (addresses vs)
unfolding addresses remaining
addresses-remaining total read [] le small = sym (drop_nil (total - read))
addresses-remaining total read (v ∷ vs) le small =
    let d = total - read in
    let next : add_size read v.iov_len ≡ read + v.iov_len = omega arith in
    let rest : total - add_size read v.iov_len ≡ d - v.iov_len = omega arith in
    drop_whole (elim (Bool-cases (ltb total (add_size read v.iov_len))) [
      | inl cut ↦ rw cut (
          ap (◌++◌ (span (v.iov_base + d) (v.iov_len - d)))
            (drop_none (d - v.iov_len) (addresses vs) (omega (arith, ltb→lt _ _ cut))))
      | inr used ↦ rw used (elim (Bool-cases (add_size read v.iov_len == total)) [
        | inl done ↦ rw done (
            rw (span_none (v.iov_base + d) (v.iov_len - d) (omega (arith, (==_iff _ _).0 done)))
              (drop_none (d - v.iov_len) (addresses vs) (omega (arith, (==_iff _ _).0 done))))
        | inr more ↦ rw more (
            rw (span_none (v.iov_base + d) (v.iov_len - d) (omega (arith, ltb→ge _ _ used))) (
              addresses-remaining total (add_size read v.iov_len) vs (ltb→ge _ _ used) (omega arith)
              ∙ ap (λ t. drop t (addresses vs)) rest))
      ])
    ])
  where
    drop_whole :
        addresses (remaining total read (v ∷ vs))
          ≡ span (v.iov_base + (total - read)) (v.iov_len - (total - read))
            ++ drop (total - read - v.iov_len) (addresses vs)
        → addresses (remaining total read (v ∷ vs)) ≡ drop (total - read) (addresses (v ∷ vs))
    drop_whole e = e ∙ sym (drop-span-append (total - read) v.iov_base v.iov_len (addresses vs))

-- The refilled array names what is left of the original one, for every progress short of a whole
-- that fits a `size_t`.
pub refill-drop :
    (total : ℕ) (vs : List Iovec)
    → sum_lengths vs < 2 ^ 64
    → addresses (pad (length vs) (remaining total 0 vs)) ≡ drop total (addresses vs)
refill-drop total vs small =
    addresses-pad (length vs) (remaining total 0 vs) (length-remaining total 0 vs)
    ∙ addresses-remaining total 0 vs (omega arith) (omega arith)
    ∙ ap (λ t. drop t (addresses vs)) whole
  where
    whole : total - 0 ≡ total
    whole = omega arith

-- The callbacks' sum is the length of the vector.
pub total_length-sum :
    (acc : ℕ) (vs : List Iovec)
    → acc + sum_lengths vs < 2 ^ 64
    → total_length acc vs ≡ acc + sum_lengths vs
unfolding total_length
total_length-sum acc [] small = omega arith
total_length-sum acc (v ∷ vs) small =
    omega (arith, total_length-sum (add_size acc v.iov_len) vs (omega arith))
