-- ===== src/Request/Lines.antt =====
-- The loop over the header lines in src/http_request.cpp, against a split of the text into lines.
use network_server.Base.{
  inl, inr, ℕ, zero, suc, ◌+◌, ◌-◌, ◌<◌, ◌≡◌, refl, ap, sym, ◌∙◌, true, false, none, some, List, [],
  ◌∷◌, arith, length, Bytes, Bool-cases, Option-cases, ok, and_then, and_then-next, pure, ◌>>◌,
}
use network_server.CString.{mem_byte, skip_delims, span_token, strtok}
use network_server.CString.Tokens.{strtok-shorter, length-skip_delims, length-span_token}
use network_server.Request.{
  HttpRequest, RequestCmd, token_at, req_type_data_parser, http_header_parser,
}
use network_server.Request.Build.{line_break, header_lines, request_lines}
use network_server.Request.Split.{split_on, span_token-Spanned}

abbrev pub line_at : ℕ → Bytes → RequestCmd (Unit {0})
line_at place [] = pure tt
line_at place (b ∷ s) = http_header_parser place (b ∷ s)

-- Every line that is not empty is parsed at its place.
unfoldable pub each_line : ℕ → List Bytes → RequestCmd (Unit {0})
each_line place [] = pure tt
each_line place (line ∷ lines) = do line_at place line; each_line (place + length line + 1) lines

-- The lines of a text that begins at a place.
unfoldable pub text_lines : Bytes → ℕ → Bytes → RequestCmd (Unit {0})
unfolding each_line split_on
text_lines ds place text = each_line place ((split_on ds text).0 ∷ (split_on ds text).1)

module _ (ds : Bytes) where
  text_lines-each_line :
      (place : ℕ) (s : Bytes) (r : HttpRequest)
      → each_line place ((split_on ds s).0 ∷ (split_on ds s).1) r ≡ text_lines ds place s r
  unfolding text_lines
  text_lines-each_line place s r = refl

  at_place :
      {p q : ℕ} (s : Bytes) (r : HttpRequest) → p ≡ q → text_lines ds p s r ≡ text_lines ds q s r
  at_place s r e = ap (λ p. text_lines ds p s r) e

  pub text_lines-delim :
      (place b : ℕ) (s : Bytes) (r : HttpRequest)
      → mem_byte b ds ≡ true
      → text_lines ds place (b ∷ s) r ≡ text_lines ds (place + 1) s r
  unfolding text_lines each_line split_on
  text_lines-delim place b s r delim =
      rw (delim, split_on) (at_place {p = place + 0 + 1} s r (omega arith))

  pub text_lines-nil : (place : ℕ) (r : HttpRequest) → text_lines ds place [] r ≡ ok tt r
  unfolding text_lines each_line split_on
  text_lines-nil place r = refl

  no_lines : (place : ℕ) (r : HttpRequest) → each_line place [] r ≡ ok tt r
  unfolding each_line
  no_lines place r = refl

  behind_token :
      (place : ℕ) (s : Bytes) (r : HttpRequest)
      → each_line (place + length (span_token ds s).0 + 1) (split_on ds s).1 r
        ≡ text_lines ds (place + (length s - length (span_token ds s).1)) (span_token ds s).1 r
  unfolding span_token split_on
  behind_token place [] r = no_lines _ r ∙ sym (text_lines-nil _ r)
  behind_token place (b ∷ s) r = elim (Bool-cases (mem_byte b ds)) [
    | inl delim ↦
        rw (delim, split_on, span_token)
          (text_lines-each_line (place + 0 + 1) s r ∙ at_place s r (omega arith))
    | inr plain ↦
        rw (plain, split_on, span_token)
          (ap (λ p. each_line p (split_on ds s).1 r) (omega arith)
            ∙ behind_token (place + 1) s r
            ∙ at_place (span_token ds s).1 r (omega (arith, length-span_token ds s)))
  ]

  text_lines-none :
      (place : ℕ) (text : Bytes) (r : HttpRequest)
      → strtok ds text ≡ none
      → text_lines ds place text r ≡ ok tt r
  unfolding strtok skip_delims
  text_lines-none place [] r e = text_lines-nil place r
  text_lines-none place (b ∷ s) r e = elim (Bool-cases (mem_byte b ds)) [
    | inl delim ↦
        text_lines-delim place b s r delim ∙ text_lines-none (place + 1) s r (ground (arith, delim))
    | inr plain ↦ ground (arith, plain)
  ]

  first_line :
      (place b : ℕ) (s : Bytes) (r : HttpRequest)
      → mem_byte b ds ≡ false
      → text_lines ds place (b ∷ s) r
        ≡ and_then
            (http_header_parser place (span_token ds (b ∷ s)).0 r)
            (λ _. each_line (place + length (span_token ds (b ∷ s)).0 + 1) (split_on ds (b ∷ s)).1)
  unfolding text_lines each_line split_on span_token
  first_line place b s r plain =
      rw (plain, split_on, span_token) (rw (span_token-Spanned ds s).first refl)

  text_lines-plain :
      (place b : ℕ) (s : Bytes) (r : HttpRequest)
      → mem_byte b ds ≡ false
      → text_lines ds place (b ∷ s) r
        ≡ and_then (http_header_parser place (span_token ds (b ∷ s)).0 r) (λ _.
          text_lines ds
            (place + (length (b ∷ s) - length (span_token ds (b ∷ s)).1))
            (span_token ds (b ∷ s)).1)
  text_lines-plain place b s r plain =
      first_line place b s r plain ∙ and_then-next _ (λ _. behind_token place (b ∷ s))

  moved :
      {p p' q q' : ℕ} (token rest : Bytes) (r : HttpRequest)
      → p ≡ p'
      → q ≡ q'
      → and_then (http_header_parser p token r) (λ _. text_lines ds q rest)
        ≡ and_then (http_header_parser p' token r) (λ _. text_lines ds q' rest)
  moved token rest r e f = rw (e, f) refl

  -- A token is a line of the text, and the lines behind it are those of what is left.
  pub text_lines-strtok :
      (place : ℕ) (text token rest : Bytes) (r : HttpRequest)
      → strtok ds text ≡ some (token, rest)
      → text_lines ds place text r
        ≡ and_then
            (http_header_parser (place + (length text - length (skip_delims ds text))) token r)
            (λ _. text_lines ds (place + (length text - length rest)) rest)
  unfolding strtok skip_delims
  text_lines-strtok place [] token rest r e = ground arith
  text_lines-strtok place (b ∷ s) token rest r e = elim (Bool-cases (mem_byte b ds)) [
    | inl delim ↦
        let inner : strtok ds s ≡ some (token, rest) = ground (arith, delim) in
        text_lines-delim place b s r delim
        ∙ text_lines-strtok (place + 1) s token rest r inner
        ∙ rw delim (
            moved token rest r (omega (arith, length-skip_delims ds s))
              (omega (arith, strtok-shorter ds s token rest inner)))
    | inr plain ↦
        let whole : span_token ds (b ∷ s) ≡ (token, rest) = ground (arith, plain) in
        text_lines-plain place b s r plain
        ∙ rw (whole, plain) (moved token rest r (omega arith) refl)
  ]

  -- A line that the text begins with.
  pub text_lines-first :
      (place : ℕ) (text line rest : Bytes) (r : HttpRequest)
      → strtok ds text ≡ some (line, rest)
      → skip_delims ds text ≡ text
      → text_lines ds place text r
        ≡ and_then
            (http_header_parser place line r)
            (λ _. text_lines ds (place + (length text - length rest)) rest)
  text_lines-first place text line rest r e whole =
      text_lines-strtok place text line rest r e
      ∙ moved line rest r (omega (arith, ap length whole)) refl

-- The loop over the lines of a text, with more fuel than the text has bytes, parses every line that a
-- split of the text at its line breaks has and that is not empty, in order, each at its place.
pub header_lines-text_lines :
    (fuel place : ℕ) (text : Bytes) (r : HttpRequest)
    → length text < fuel
    → header_lines fuel place text r ≡ text_lines line_break place text r
unfolding header_lines token_at
header_lines-text_lines zero place text r enough = absurd (omega arith)
header_lines-text_lines (suc fuel) place text r enough =
    elim (Option-cases (strtok line_break text)) [
      | inl over ↦
          rw (over, token_at, header_lines) (sym (text_lines-none line_break place text r over))
      | inr ((token, rest), e) ↦
          rw (e, token_at, header_lines)
            (and_then-next _ (λ _ q.
                header_lines-text_lines fuel _ rest q
                  (omega (arith, strtok-shorter line_break text token rest e)))
              ∙ sym (text_lines-strtok line_break place text token rest r e))
    ]

-- Behind the first line come the header lines.
pub request_lines-first :
    (text line rest : Bytes) (r : HttpRequest)
    → strtok line_break text ≡ some (line, rest)
    → request_lines text r
      ≡ and_then
          (req_type_data_parser line r)
          (λ _. text_lines line_break (0 + (length text - length rest)) rest)
unfolding request_lines token_at
request_lines-first text line rest r e =
    rw (e, token_at, request_lines)
      (and_then-next _ (λ _ q.
        header_lines-text_lines (length text + 1) _ rest q
          (omega (arith, strtok-shorter line_break text line rest e))))
