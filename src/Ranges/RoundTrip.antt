-- ===== src/Ranges/RoundTrip.antt =====
-- A Range header of one range, printed and parsed.
use network_server.Base.{
  ℕ, suc, zero, ◌+◌, ◌<◌, ◌≤◌, ◌^◌, ◌≡◌, ◌⊎◌, refl, sym, ap, ◌∙◌, true, false, some, [], ◌∷◌, ◌++◌,
  arith, length, Bytes, codes, bytes_eq, ◌==◌, Digits, to_string, to_string-Numeral, atoi,
  atoi-to_string, bytes_eq-head_ne,
}
use network_server.Ranges.{
  Range, push, second_token, range_end, range_from, range_round, range_loop, get_ranges,
}
use network_server.CString.{mem_byte, skip_delims, strtok}
use network_server.CString.Tokens.{Plain, Plain-append, strtok-stop, strtok-end}

Digits-Plain :
    (ds s : Bytes) → ((b : ℕ) → 48 ≤ b → b ≤ 57 → mem_byte b ds ≡ false) → Digits s → Plain ds s
Digits-Plain ds [] out _ = tt
Digits-Plain ds (b ∷ s) out (lo, hi, d) = (out b lo hi, Digits-Plain ds s out d)

not_dash : (b : ℕ) → 48 ≤ b → b ≤ 57 → mem_byte b (codes "-") ≡ false
not_dash b lo hi = ground arith

not_comma : (b : ℕ) → 48 ≤ b → b ≤ 57 → mem_byte b (codes ", ") ≡ false
not_comma b lo hi = ground arith

module _ (n : ℕ) (s e b c : ℕ) (s' e' : Bytes) (ds : Digits (b ∷ s')) (de : Digits (c ∷ e')) where
  tokens : strtok (codes "-") (b ∷ s' ++ 45 ∷ c ∷ e') ≡ some (b ∷ s', c ∷ e')
  tokens =
      strtok-stop (codes "-") s' (c ∷ e') b 45 (Digits-Plain (codes "-") (b ∷ s') not_dash ds) refl

  last_token : second_token (c ∷ e') ≡ some (c ∷ e')
  last_token =
      rw (strtok-end (codes "-") e' c (Digits-Plain (codes "-") (c ∷ e') not_dash de), second_token)
        refl

  round-push :
      atoi (b ∷ s') ≡ s
      → atoi (c ∷ e') ≡ e
      → ((b == 48) ≡ true) ⊎ ((s == 0) ≡ false)
      → ((c == 48) ≡ true) ⊎ ((e == 0) ≡ false)
      → s + 1 < n
      → n < 2 ^ 64
      → range_round n (b ∷ s' ++ 45 ∷ c ∷ e') ≡ push (record { start = s; end = e })
  unfolding range_round range_from range_end
  round-push sv ev zs ze inside small = ground (arith, tokens, last_token, sv, ev, zs, ze, ds.0)

-- The header `bytes=start-end`.
abbrev pub range_header : ℕ → ℕ → Bytes
range_header s e = codes "bytes=" ++ (to_string s ++ 45 ∷ to_string e)

plain_header :
    (s' e' : Bytes) (b c : ℕ) (ds : Digits (b ∷ s')) (de : Digits (c ∷ e'))
    → strtok (codes ", ") (b ∷ s' ++ 45 ∷ c ∷ e') ≡ some (b ∷ s' ++ 45 ∷ c ∷ e', [])
plain_header s' e' b c ds de = strtok-end (codes ", ") (s' ++ 45 ∷ c ∷ e') b (
    Plain-append (codes ", ") (b ∷ s') (45 ∷ c ∷ e')
      (Digits-Plain (codes ", ") (b ∷ s') not_comma ds)
      (refl, Digits-Plain (codes ", ") (c ∷ e') not_comma de))

loop-one :
    (fuel n : ℕ) (text : Bytes) (r : Range)
    → strtok (codes ", ") text ≡ some (text, [])
    → range_round n text ≡ push r
    → range_loop (suc (suc fuel)) n text [] ≡ some (r ∷ [], true)
unfolding range_loop strtok skip_delims
loop-one fuel n text r whole pushed = rw (whole, range_loop) (rw (pushed, range_loop) refl)

loop-fuel :
    (fuel n : ℕ) (text : Bytes) (r : Range)
    → 1 < fuel
    → strtok (codes ", ") text ≡ some (text, [])
    → range_round n text ≡ push r
    → range_loop fuel n text [] ≡ some (r ∷ [], true)
loop-fuel zero n text r h whole pushed = absurd (omega arith)
loop-fuel (suc zero) n text r h whole pushed = absurd (omega arith)
loop-fuel (suc (suc fuel)) n text r h whole pushed = loop-one fuel n text r whole pushed

parsed :
    (n : ℕ) (text : Bytes) (r : Range)
    → range_loop (length (codes "bytes=" ++ text) + 1) n text [] ≡ some (r ∷ [], true)
    → get_ranges (codes "bytes=" ++ text) n true ≡ some (r ∷ [], some true)
unfolding get_ranges
parsed n text r loop =
    let differ : bytes_eq (codes "bytes=" ++ text) (codes "none") ≡ false =
      bytes_eq-head_ne 98 110 (codes "ytes=" ++ text) (codes "one") refl in
    ground (arith, differ, loop)

-- The header of one range, its last byte given, is parsed back to the range, if its numbers fit an
-- `int` and the first byte lies before the last one of the file, whose size is below 2 ^ 64.
pub get_ranges-range_header :
    (n s e : ℕ)
    → s + 1 < n
    → n < 2 ^ 64
    → s < 2 ^ 31
    → e < 2 ^ 31
    → get_ranges (range_header s e) n true ≡ some (record { start = s; end = e } ∷ [], some true)
get_ranges-range_header n s e inside small fit_s fit_e =
    let (b, s', ns) = to_string-Numeral s in
    let (c, e', ne) = to_string-Numeral e in
    rw (ns.text, ne.text)
      (parsed n (b ∷ s' ++ 45 ∷ c ∷ e') _ (
        loop-fuel _ n (b ∷ s' ++ 45 ∷ c ∷ e') (record { start = s; end = e }) (omega arith)
          (plain_header s' e' b c ns.digits ne.digits)
          (round-push n s e b c s' e' ns.digits ne.digits
            (ap atoi (sym ns.text) ∙ atoi-to_string s fit_s)
            (ap atoi (sym ne.text) ∙ atoi-to_string e fit_e) ns.not_zero ne.not_zero inside small)))
