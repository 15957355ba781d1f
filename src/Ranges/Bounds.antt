-- ===== src/Ranges/Bounds.antt =====
-- Where the ranges of a header lie in a file of `n` bytes.
use network_server.Base.{
  ℕ, ◌+◌, ◌<◌, ◌≤◌, ◌^◌, ◌≡◌, ◌⊎◌, inl, inr, Option, none, some, ◌∷◌, arith, Bytes, atoi, ltb,
  Bool-cases,
}
use network_server.Ranges.{Range, push, range_end, range_from, range_suffix}

range_end-start :
    (n start : ℕ) (e : Option Bytes) (r : Range) → range_end n start e ≡ push r → r.start ≡ start
unfolding range_end
range_end-start n start none r pushed = ground arith
range_end-start n start (some text) r pushed = ground arith

-- A range that gives its start is taken only if it starts before the last byte of the file, whose
-- size is from 1 to below 2 ^ 64.
pub range_from-inside :
    (n : ℕ) (text : Bytes) (e : Option Bytes) (r : Range)
    → 1 ≤ n
    → n < 2 ^ 64
    → range_from n text e ≡ push r
    → r.start + 1 < n
unfolding range_from
range_from-inside n text e r some_bytes small pushed =
    ground (arith, range_end-start n (atoi text) e r)

-- A range that is open-ended runs to the last byte of the file, whose size is from 1 to below 2 ^ 64.
pub range_from-open :
    (n : ℕ) (text : Bytes) (r : Range)
    → 1 ≤ n
    → n < 2 ^ 64
    → range_from n text none ≡ push r
    → (r.start < r.end) × (r.end + 1 ≡ n)
unfolding range_from range_end
range_from-open n text r some_bytes small pushed = (ground arith, ground arith)

-- The range of the last `k` bytes, for a number `k` and a size from 1 to below 2 ^ 63: it lies in the
-- file if `k` is less than the size; otherwise its start wraps around and lies behind its end.
pub range_suffix-cases :
    (n b : ℕ) (s : Bytes) (r : Range)
    → 1 ≤ n
    → n < 2 ^ 63
    → 1 ≤ atoi (b ∷ s)
    → atoi (b ∷ s) < 2 ^ 63
    → range_suffix n (b ∷ s) ≡ push r
    → (r.end + 1 ≡ n)
      × (((atoi (b ∷ s) < n) × (r.start + atoi (b ∷ s) ≡ r.end))
          ⊎ ((n ≤ atoi (b ∷ s)) × (r.end < r.start)))
unfolding range_suffix
range_suffix-cases n b s r some_bytes small one fits pushed = (
  ground arith,
  elim (Bool-cases (ltb (atoi (b ∷ s)) n)) [
    | inl inside ↦ inl (ground arith, ground arith)
    | inr outside ↦ inr (ground arith, ground arith)
  ],
)
