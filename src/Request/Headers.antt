-- ===== src/Request/Headers.antt =====
-- src/http_request.cpp: what the parser of header lines takes from a line.
use network_server.Base.{
  ℕ, suc, ◌+◌, ◌-◌, ◌≤◌, ◌≡◌, inl, inr, refl, ap, sym, ◌∙◌, false, none, some, [], ◌∷◌, ◌++◌, arith,
  append_assoc, length, length-append, Bytes, codes, ltb, Run, Option-cases, ok,
}
use network_server.CString.{skip_delims, strtok, strchr}
use network_server.CString.Tokens.{
  Plain, token-stop, token-end, Plain-weaken, skip_delims-Plain, skip_delims-head,
}
use network_server.Request.{
  CharPtr, points_to, dangling, HttpRequest, RequestCmd, token_at, value_after_space, assign_header,
  http_header_parser,
}

-- A text with none of the bytes that end a header's part: colon, line break, null.
abbrev pub Part : Bytes → Type 0
Part s = Plain (58 ∷ 13 ∷ 10 ∷ 0 ∷ []) s

token_at-some :
    (ds : Bytes) (place : ℕ) (text token rest : Bytes)
    → strtok ds text ≡ some (token, rest)
    → token_at ds place text
      ≡ some (
        place + (length text - length (skip_delims ds text)),
        (token, (place + (length text - length rest), rest)),
      )
unfolding token_at
token_at-some ds place text token rest e = rw (e, token_at) refl

-- Two tokens of a line.
parser-tokens :
    (place at_key after at_value end : ℕ) (line key rest value more : Bytes) (r : HttpRequest)
    → 3 ≤ length line
    → token_at (codes ":") place line ≡ some (at_key, (key, (after, rest)))
    → token_at (codes ":") after rest ≡ some (at_value, (value, (end, more)))
    → http_header_parser place line r
      ≡ elim (value_after_space at_value value) as (λ x. Run HttpRequest (Unit {0})) [
        | none ↦ ok tt r
        | some v ↦ assign_header key v r
      ]
unfolding http_header_parser
parser-tokens place at_key after at_value end line key rest value more r long e f =
    let enough : ltb (length line) 3 ≡ false = ground arith in
    rw (enough, e, f)
      (elim (Option-cases (value_after_space at_value value)) [
        | inl out ↦ rw out refl
        | inr (v, found) ↦ rw found refl
      ])

-- What the line means once its value is known.
abbrev assign_value : Bytes → ℕ → Bytes → RequestCmd (Unit {0})
assign_value key at_value value r =
    elim (value_after_space at_value value) as (λ x. Run HttpRequest (Unit {0})) [
      | none ↦ ok tt r
      | some v ↦ assign_header key v r
    ]

parser-key_value :
    (place : ℕ) (key rest value more : Bytes) (r : HttpRequest)
    → 1 ≤ length key
    → 1 ≤ length rest
    → Plain (codes ":") key
    → strtok (codes ":") rest ≡ some (value, more)
    → skip_delims (codes ":") rest ≡ rest
    → http_header_parser place (key ++ 58 ∷ rest) r
      ≡ assign_value key (place + length key + 1) value r
parser-key_value place key rest value more r some_key some_rest plain second whole =
    let line = key ++ 58 ∷ rest in
    let size : length line ≡ length key + suc (length rest) = length-append key (58 ∷ rest) in
    let first =
      token_at-some (codes ":") place line key rest
        (token-stop (codes ":") key rest 58 some_key plain refl) in
    let next =
      token_at-some (codes ":") (place + (length line - length rest)) rest value more second in
    parser-tokens place _ (place + (length line - length rest)) _ _ line key rest value more r
      (omega (arith, size)) first next
    ∙ ap (λ p. assign_value key p value r) (omega (arith, size, ap length whole))

spaced_value :
    (at_value : ℕ) (value : Bytes)
    → 1 ≤ length value
    → value_after_space at_value (32 ∷ value) ≡ some (points_to (at_value + 1) value)
unfolding value_after_space strchr
spaced_value at_value value some_value = ground arith

unspaced_value :
    (at_value : ℕ) (value : Bytes)
    → strchr 32 value ≡ none
    → value_after_space at_value value ≡ some dangling
unfolding value_after_space
unspaced_value at_value value none_there = rw (none_there, value_after_space) refl

-- `key: value`.
abbrev pub header_line : Bytes → Bytes → Bytes
header_line key value = key ++ (58 ∷ 32 ∷ value)

value-found :
    (key value : Bytes) (at_value : ℕ) (v : CharPtr) (r : HttpRequest)
    → value_after_space at_value value ≡ some v
    → assign_value key at_value value r ≡ assign_header key v r
value-found key value at_value v r found = rw (found, assign_value) refl

colon_free : (s : Bytes) → Part s → Plain (codes ":") s
colon_free s p = Plain-weaken (58 ∷ 13 ∷ 10 ∷ 0 ∷ []) (codes ":") s (λ b out. ground arith) p

-- A header line is taken apart at its colon and the space behind it: the field gets the place of
-- the value.
pub http_header_parser-header_line :
    (place : ℕ) (key value : Bytes) (r : HttpRequest)
    → 1 ≤ length key
    → 1 ≤ length value
    → Part key
    → Part value
    → http_header_parser place (header_line key value) r
      ≡ assign_header key (points_to (place + length key + 2) value) r
http_header_parser-header_line place key value r some_key some_value k v =
    parser-key_value place key (32 ∷ value) (32 ∷ value) [] r some_key (omega arith)
      (colon_free key k)
      (token-end (codes ":") (32 ∷ value) (omega arith) (refl, colon_free value v))
      (skip_delims-Plain (codes ":") (32 ∷ value) (refl, colon_free value v))
    ∙ value-found key (32 ∷ value) _ _ r (spaced_value (place + length key + 1) value some_value)
    ∙ ap (λ p. assign_header key (points_to p value) r) (omega arith)

-- What follows a second colon is lost: a `Host` header with a port is read as one without it.
pub http_header_parser-second_colon :
    (place : ℕ) (key value port : Bytes) (r : HttpRequest)
    → 1 ≤ length key
    → 1 ≤ length value
    → Part key
    → Part value
    → http_header_parser place (header_line key value ++ (58 ∷ port)) r
      ≡ http_header_parser place (header_line key value) r
http_header_parser-second_colon place key value port r some_key some_value k v =
    let plain : Plain (codes ":") (32 ∷ value) = (refl, colon_free value v) in
    ap (λ line. http_header_parser place line r) (append_assoc key (58 ∷ 32 ∷ value) (58 ∷ port))
    ∙ parser-key_value place key (32 ∷ value ++ 58 ∷ port) (32 ∷ value) port r some_key
        (omega arith) (colon_free key k)
        (token-stop (codes ":") (32 ∷ value) port 58 (omega arith) plain refl)
        (skip_delims-head (codes ":") (value ++ 58 ∷ port) 32 refl)
    ∙ sym (
        parser-key_value place key (32 ∷ value) (32 ∷ value) [] r some_key (omega arith)
          (colon_free key k) (token-end (codes ":") (32 ∷ value) (omega arith) plain)
          (skip_delims-Plain (codes ":") (32 ∷ value) plain))
