-- ===== src/Base/Decimal.antt =====
-- Decimal numerals: `std::to_string` of an unsigned number, and `atoi` as the C library computes
-- it (`strtol` saturates, and its result is cut to 32 bits).
use Prim.Native.Nat.{ℕ, zero, suc, ◌+◌, ◌-◌, ◌*◌, ◌/◌, ◌%◌, ◌^◌, ◌<◌, ◌≤◌, min}
use mathlib.Core.Path.{◌≡◌, refl, ◌∙◌, ap, sym, subst}
use mathlib.Core.Logic.{◌⊎◌, inl, inr}
use mathlib.Core.Bool.{Bool, true, false, ◌&&◌, ◌||◌}
use mathlib.Core.List.{[], ◌∷◌, ◌++◌, append_assoc, append-nil}
use native.Mathlib.Omega.{arith}
use network_server.Base.Tests.{ltb, leb, ◌==◌, if◌then◌else◌, ltb→ge, Bool-cases, ltb→lt}
use network_server.Base.Text.{Bytes}

-- The fuel bounds the number of digits; `n + 1` is more than enough.
unfoldable pub to_digits : ℕ → ℕ → Bytes
to_digits zero n = []
to_digits (suc fuel) n =
    let front = to_digits fuel (n / 10) in
    if ltb n 10 then (n + 48) ∷ [] else front ++ (n % 10 + 48) ∷ []

unfoldable pub to_string : ℕ → Bytes
unfolding to_digits
to_string n = to_digits (n + 1) n

abbrev pub is_digit : ℕ → Bool
is_digit b = leb 48 b && leb b 57

abbrev pub is_space : ℕ → Bool
is_space b = b == 32 || (leb 9 b && leb b 13)

unfoldable pub skip_spaces : Bytes → Bytes
skip_spaces [] = []
skip_spaces (b ∷ s) = if is_space b then skip_spaces s else b ∷ s

-- The value of the leading digits.
unfoldable pub leading_digits : ℕ → Bytes → ℕ
leading_digits acc [] = acc
leading_digits acc (b ∷ s) = if is_digit b then leading_digits (acc * 10 + (b - 48)) s else acc

-- An `int` with these low 32 bits, as a `size_t`.
abbrev pub int_to_size : ℕ → ℕ
int_to_size w = if ltb w (2 ^ 31) then w else (w + 2 ^ 64 - 2 ^ 32)

-- `(size_t)atoi(s)`.
unfoldable pub positive_atoi : ℕ → ℕ
positive_atoi v = int_to_size (min v (2 ^ 63 - 1) % 2 ^ 32)

unfoldable pub negative_atoi : ℕ → ℕ
negative_atoi v = int_to_size ((2 ^ 64 - min v (2 ^ 63)) % 2 ^ 32)

unfoldable pub signed_atoi : Bytes → ℕ
unfolding positive_atoi negative_atoi leading_digits
signed_atoi [] = 0
signed_atoi (b ∷ s) =
    if b == 45
    then negative_atoi (leading_digits 0 s)
    else if b == 43
    then positive_atoi (leading_digits 0 s)
    else positive_atoi (leading_digits 0 (b ∷ s))

unfoldable pub atoi : Bytes → ℕ
unfolding skip_spaces signed_atoi
atoi s = signed_atoi (skip_spaces s)

-- Reading the digits of `n` gives `n`, whatever comes behind them.
pub leading_digits-to_digits :
    (fuel n : ℕ) (rest : Bytes)
    → n < fuel
    → leading_digits 0 (to_digits fuel n ++ rest) ≡ leading_digits n rest
unfolding to_digits leading_digits
leading_digits-to_digits zero n rest h = absurd (omega arith)
leading_digits-to_digits (suc fuel) n rest h = elim (Bool-cases (ltb n 10)) [
  | inl small ↦ rw small (ground (arith, ltb→lt n 10 small))
  | inr large ↦
      rw (large, append_assoc)
        (leading_digits-to_digits fuel (n / 10) ((n % 10 + 48) ∷ rest)
            (omega (arith, ltb→ge n 10 large))
          ∙ ground arith)
]

-- A text of digits only.
abbrev pub Digits : Bytes → Type 0
Digits [] = Unit {0}
Digits (b ∷ s) = (48 ≤ b) × (b ≤ 57) × Digits s

append-Digits : (s t : Bytes) → Digits s → Digits t → Digits (s ++ t)
append-Digits [] t ds dt = dt
append-Digits (b ∷ s) t (lo, hi, ds) dt = (lo, hi, append-Digits s t ds dt)

pub to_digits-Digits : (fuel n : ℕ) → Digits (to_digits fuel n)
unfolding to_digits
to_digits-Digits zero n = tt
to_digits-Digits (suc fuel) n = elim (Bool-cases (ltb n 10)) [
  | inl small ↦ rw small (omega arith, omega (arith, ltb→lt n 10 small), tt)
  | inr large ↦ rw large (
      append-Digits (to_digits fuel (n / 10)) _ (to_digits-Digits fuel (n / 10))
        (omega arith, omega arith, tt))
]

-- `atoi` of digits.
atoi-Digits : (s : Bytes) → Digits s → atoi s ≡ positive_atoi (leading_digits 0 s)
unfolding atoi skip_spaces signed_atoi leading_digits
atoi-Digits [] d = ground arith
atoi-Digits (b ∷ s) (lo, hi, d) = ground arith

positive_atoi-small : (v : ℕ) → v < 2 ^ 31 → positive_atoi v ≡ v
unfolding positive_atoi
positive_atoi-small v small = ground arith

-- `atoi` reads back what `to_string` writes of a number that an `int` can hold.
pub atoi-to_string : (n : ℕ) → n < 2 ^ 31 → atoi (to_string n) ≡ n
unfolding to_string leading_digits
atoi-to_string n small =
    let digits = to_digits (n + 1) n in
    let read : leading_digits 0 digits ≡ n =
      ap (leading_digits 0) (sym (append-nil digits))
      ∙ leading_digits-to_digits (n + 1) n [] (omega arith) in
    atoi-Digits digits (to_digits-Digits (n + 1) n)
    ∙ ap positive_atoi read
    ∙ positive_atoi-small n small

pub to_string-Digits : (n : ℕ) → Digits (to_string n)
unfolding to_string
to_string-Digits n = to_digits-Digits (n + 1) n

-- The text of a number is not empty, and begins with the digit zero if the number is zero.
pub record Numeral (n : ℕ) (head : ℕ) (tail : Bytes) : Type 0 where
  pub text : to_string n ≡ head ∷ tail
  pub digits : Digits (head ∷ tail)
  pub not_zero : ((head == 48) ≡ true) ⊎ ((n == 0) ≡ false)

append-head : (s : Bytes) (b : ℕ) → (head : ℕ) × (tail : Bytes) × (s ++ b ∷ [] ≡ head ∷ tail)
append-head [] b = (b, [], refl)
append-head (c ∷ s) b = (c, s ++ b ∷ [], refl)

to_digits-head :
    (fuel n : ℕ) → n < fuel → (head : ℕ) × (tail : Bytes) × (to_digits fuel n ≡ head ∷ tail)
unfolding to_digits
to_digits-head zero n h = absurd (omega arith)
to_digits-head (suc fuel) n h = elim (Bool-cases (ltb n 10)) [
  | inl small ↦ rw small (n + 48, [], refl)
  | inr large ↦ rw large (append-head (to_digits fuel (n / 10)) (n % 10 + 48))
]

zero_head :
    (n head : ℕ) (tail : Bytes)
    → to_string n ≡ head ∷ tail
    → ((head == 48) ≡ true) ⊎ ((n == 0) ≡ false)
unfolding to_string to_digits
zero_head zero head tail e = inl (ground arith)
zero_head (suc n) head tail e = inr (ground arith)

pub to_string-Numeral : (n : ℕ) → (head : ℕ) × (tail : Bytes) × Numeral n head tail
unfolding to_string
to_string-Numeral n =
    let (head, tail, e) = to_digits-head (n + 1) n (omega arith) in
    (
      head,
      tail,
      record {
        text = e;
        digits = subst Digits e (to_string-Digits n);
        not_zero = zero_head n head tail e;
      },
    )
