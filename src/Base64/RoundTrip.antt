-- ===== src/Base64/RoundTrip.antt =====
-- What `b64_encode` writes is decoded to what it was given.
use network_server.Base.{
  false, inl, inr, Bool-cases, ℕ, suc, ◌+◌, ◌-◌, ◌*◌, ◌/◌, ◌%◌, ◌<◌, ◌≤◌, ◌≡◌, refl, ap, ◌∙◌,
  Option, none, some, [], ◌∷◌, ◌++◌, arith, ltb, ◌==◌, if◌then◌else◌, Bytes, length, take,
}
use network_server.CString.{c_string}
use network_server.Base64.{b64_alphabet, b64quartet, quartets, padding, overwrite, b64_encode}

-- The value of a character of the alphabet.
unfoldable pub b64_value : ℕ → ℕ
b64_value c =
    if c == 43
    then 62
    else if c == 47
    then 63
    else if ltb c 58
    then c + 4
    else if ltb c 91
    then c - 65
    else c - 71

b64_value-b64_alphabet : (i : ℕ) → i < 64 → b64_value (b64_alphabet i) ≡ i
unfolding b64_value b64_alphabet
b64_value-b64_alphabet i h = ground arith

not_padding : (i : ℕ) → (b64_alphabet i == 61) ≡ false
unfolding b64_alphabet
not_padding i = ground arith

-- A decoder of groups of four characters, the last of which may be padding.
unfoldable pub b64_decode : Bytes → Option Bytes
b64_decode [] = some []
b64_decode (p ∷ q ∷ r ∷ u ∷ s) =
    let rest = b64_decode s in
    let a = (b64_value p * 4 + b64_value q / 16) % 256 in
    let b = (b64_value q * 16 + b64_value r / 4) % 256 in
    let c = (b64_value r * 64 + b64_value u) % 256 in
    if r == 61
    then some (a ∷ [])
    else if u == 61
    then some (a ∷ b ∷ [])
    else elim rest [ none ↦ none | some t ↦ some (a ∷ b ∷ c ∷ t) ]
b64_decode _ = none

abbrev pub AllBytes : Bytes → Type 0
AllBytes [] = Unit {0}
AllBytes (b ∷ s) = (b < 256) × AllBytes s

-- The encoding with its padding written in place.
abbrev pub padded : Bytes → Bytes
padded [] = []
padded (a ∷ []) = b64_alphabet (a % 256 / 4) ∷ b64_alphabet (a % 4 * 16 + 0) ∷ 61 ∷ 61 ∷ []
padded (a ∷ b ∷ []) =
    b64_alphabet (a % 256 / 4)
    ∷ b64_alphabet (a % 4 * 16 + b % 256 / 16)
    ∷ b64_alphabet (b % 16 * 4 + 0)
    ∷ 61
    ∷ []
padded (a ∷ b ∷ c ∷ s) = b64quartet a b c ++ padded s

overwrite-cons :
    (x : ℕ) (xs : Bytes) (n : ℕ) → n ≤ length xs → overwrite (x ∷ xs) n ≡ x ∷ overwrite xs n
unfolding overwrite
overwrite-cons x xs n h =
    let e : suc (length xs) - n ≡ suc (length xs - n) = omega arith in
    ap (λ k. take k (x ∷ xs) ++ padding n) e

length-quartets : (s : Bytes) → (3 - length s % 3) % 3 ≤ length (quartets s)
unfolding quartets b64quartet
length-quartets [] = omega arith
length-quartets (a ∷ []) = omega arith
length-quartets (a ∷ b ∷ []) = omega arith
length-quartets (a ∷ b ∷ c ∷ s) = omega (arith, length-quartets s)

overwrite-quartet :
    (x y z w : ℕ) (t : Bytes) (n : ℕ)
    → n ≤ length t
    → overwrite (x ∷ y ∷ z ∷ w ∷ t) n ≡ x ∷ y ∷ z ∷ w ∷ overwrite t n
overwrite-quartet x y z w t n h =
    overwrite-cons x (y ∷ z ∷ w ∷ t) n (omega arith)
    ∙ ap (◌∷◌ x) (overwrite-cons y (z ∷ w ∷ t) n (omega arith))
    ∙ ap (λ s. x ∷ y ∷ s) (overwrite-cons z (w ∷ t) n (omega arith))
    ∙ ap (λ s. x ∷ y ∷ z ∷ s) (overwrite-cons w t n h)

overwrite-padded : (s : Bytes) → overwrite (quartets s) ((3 - length s % 3) % 3) ≡ padded s
unfolding quartets b64quartet overwrite
overwrite-padded [] = refl
overwrite-padded (a ∷ []) = refl
overwrite-padded (a ∷ b ∷ []) = refl
overwrite-padded (a ∷ b ∷ c ∷ s) =
    let same : (3 - (suc (suc (suc (length s)))) % 3) % 3 ≡ (3 - length s % 3) % 3 = omega arith in
    ap (overwrite (b64quartet a b c ++ quartets s)) same
    ∙ overwrite-quartet _ _ _ _ (quartets s) _ (length-quartets s)
    ∙ ap (λ t. b64quartet a b c ++ t) (overwrite-padded s)

-- The fields of a group of three bytes.
first_field : (a : ℕ) → b64_value (b64_alphabet (a % 256 / 4)) ≡ a % 256 / 4
first_field a = b64_value-b64_alphabet (a % 256 / 4) (omega arith)

second_field :
    (a b : ℕ) → b64_value (b64_alphabet (a % 4 * 16 + b % 256 / 16)) ≡ a % 4 * 16 + b % 256 / 16
second_field a b = b64_value-b64_alphabet (a % 4 * 16 + b % 256 / 16) (omega arith)

third_field :
    (b c : ℕ) → b64_value (b64_alphabet (b % 16 * 4 + c % 256 / 64)) ≡ b % 16 * 4 + c % 256 / 64
third_field b c = b64_value-b64_alphabet (b % 16 * 4 + c % 256 / 64) (omega arith)

fourth_field : (c : ℕ) → b64_value (b64_alphabet (c % 64)) ≡ c % 64
fourth_field c = b64_value-b64_alphabet (c % 64) (omega arith)

byte_one : (a b : ℕ) → a < 256 → (a % 256 / 4 * 4 + (a % 4 * 16 + b % 256 / 16) / 16) % 256 ≡ a
byte_one a b h = omega arith

byte_two :
    (a b c : ℕ)
    → b < 256
    → ((a % 4 * 16 + b % 256 / 16) * 16 + (b % 16 * 4 + c % 256 / 64) / 4) % 256 ≡ b
byte_two a b c h = omega arith

byte_three : (b c : ℕ) → c < 256 → ((b % 16 * 4 + c % 256 / 64) * 64 + c % 64) % 256 ≡ c
byte_three b c h = omega arith

b64_decode-padded : (s : Bytes) → AllBytes s → b64_decode (padded s) ≡ some s
unfolding b64_decode b64quartet
b64_decode-padded [] h = refl
b64_decode-padded (a ∷ []) h = ground (arith, first_field a, second_field a 0, byte_one a 0, h)
b64_decode-padded (a ∷ b ∷ []) h = ground (
  arith,
  not_padding (b % 16 * 4 + 0),
  first_field a,
  second_field a b,
  third_field b 0,
  byte_one a b,
  byte_two a b 0,
  h,
)
b64_decode-padded (a ∷ b ∷ c ∷ s) h = ground (
  arith,
  not_padding (b % 16 * 4 + c % 256 / 64),
  not_padding (c % 64),
  first_field a,
  second_field a b,
  third_field b c,
  fourth_field c,
  byte_one a b,
  byte_two a b c,
  byte_three b c,
  h.0,
  h.1.0,
  h.1.1.0,
  b64_decode-padded s h.1.1.1,
)

c_string-AllBytes : (s : Bytes) → AllBytes s → AllBytes (c_string s)
unfolding c_string
c_string-AllBytes [] h = tt
c_string-AllBytes (b ∷ s) (small, h) = elim (Bool-cases (b == 0)) [
  | inl null ↦ rw null tt
  | inr other ↦ rw other (small, c_string-AllBytes s h)
]

-- Of every string of bytes below 256, what comes before the first null byte is read back from what
-- `b64_encode` makes of it.
pub b64_decode-b64_encode : (s : Bytes) → AllBytes s → b64_decode (b64_encode s) ≡ some (c_string s)
unfolding b64_encode
b64_decode-b64_encode s h =
    ap b64_decode (overwrite-padded (c_string s))
    ∙ b64_decode-padded (c_string s) (c_string-AllBytes s h)
