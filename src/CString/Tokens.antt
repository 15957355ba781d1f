-- ===== src/CString/Tokens.antt =====
-- What `strtok_r` takes off a text, and what it leaves.
use network_server.Base.{
  inl, inr, ℕ, ◌<◌, ◌≤◌, ◌≡◌, refl, ap, true, false, some, [], ◌∷◌, ◌++◌, arith, length, Bytes,
  Bool-cases,
}
use network_server.CString.{mem_byte, skip_delims, span_token, strtok}

pub length-skip_delims : (ds s : Bytes) → length (skip_delims ds s) ≤ length s
unfolding skip_delims
length-skip_delims ds [] = omega arith
length-skip_delims ds (b ∷ s) = ground (arith, length-skip_delims ds s)

pub length-span_token : (ds s : Bytes) → length (span_token ds s).1 ≤ length s
unfolding span_token
length-span_token ds [] = omega arith
length-span_token ds (b ∷ s) = ground (arith, length-span_token ds s)

behind_head :
    (ds s token rest : Bytes) (b : ℕ)
    → mem_byte b ds ≡ false
    → span_token ds (b ∷ s) ≡ (token, rest)
    → length rest ≤ length s
unfolding span_token
behind_head ds s token rest b plain e = ground (arith, plain, length-span_token ds s)

-- What is left behind a token is shorter than the text.
pub strtok-shorter :
    (ds s token rest : Bytes) → strtok ds s ≡ some (token, rest) → length rest < length s
unfolding strtok skip_delims
strtok-shorter ds [] token rest e = ground arith
strtok-shorter ds (b ∷ s) token rest e = elim (Bool-cases (mem_byte b ds)) [
  | inl delim ↦ ground (arith, delim, strtok-shorter ds s token rest)
  | inr plain ↦ ground (arith, plain, behind_head ds s token rest b)
]

-- A text without delimiters.
abbrev pub Plain : Bytes → Bytes → Type 0
Plain ds [] = Unit {0}
Plain ds (b ∷ s) = (mem_byte b ds ≡ false) × Plain ds s

pub Plain-append : (ds s t : Bytes) → Plain ds s → Plain ds t → Plain ds (s ++ t)
Plain-append ds [] t p q = q
Plain-append ds (b ∷ s) t (now, p) q = (now, Plain-append ds s t p q)

pub span_token-stop :
    (ds s rest : Bytes) (d : ℕ)
    → Plain ds s
    → mem_byte d ds ≡ true
    → span_token ds (s ++ d ∷ rest) ≡ (s, rest)
unfolding span_token
span_token-stop ds [] rest d _ hit = rw hit refl
span_token-stop ds (b ∷ s) rest d (plain, more) hit =
    rw plain (ap (λ r. (b ∷ r.0, r.1)) (span_token-stop ds s rest d more hit))

pub span_token-end : (ds s : Bytes) → Plain ds s → span_token ds s ≡ (s, [])
unfolding span_token
span_token-end ds [] _ = refl
span_token-end ds (b ∷ s) (plain, more) =
    rw plain (ap (λ r. (b ∷ r.0, r.1)) (span_token-end ds s more))

-- A token that is not empty.
pub strtok-stop :
    (ds s rest : Bytes) (b d : ℕ)
    → Plain ds (b ∷ s)
    → mem_byte d ds ≡ true
    → strtok ds (b ∷ s ++ d ∷ rest) ≡ some (b ∷ s, rest)
unfolding strtok skip_delims
strtok-stop ds s rest b d p hit =
    rw (p.0, strtok) (ap some (span_token-stop ds (b ∷ s) rest d p hit))

pub strtok-end : (ds s : Bytes) (b : ℕ) → Plain ds (b ∷ s) → strtok ds (b ∷ s) ≡ some (b ∷ s, [])
unfolding strtok skip_delims
strtok-end ds s b p = rw (p.0, strtok) (ap some (span_token-end ds (b ∷ s) p))

pub Plain-weaken :
    (ds fewer s : Bytes)
    → ((b : ℕ) → mem_byte b ds ≡ false → mem_byte b fewer ≡ false)
    → Plain ds s
    → Plain fewer s
Plain-weaken ds fewer [] weaken _ = tt
Plain-weaken ds fewer (b ∷ s) weaken (now, p) = (weaken b now, Plain-weaken ds fewer s weaken p)

pub token-stop :
    (ds s rest : Bytes) (d : ℕ)
    → 1 ≤ length s
    → Plain ds s
    → mem_byte d ds ≡ true
    → strtok ds (s ++ d ∷ rest) ≡ some (s, rest)
token-stop ds [] rest d some_bytes p hit = absurd (omega arith)
token-stop ds (b ∷ s) rest d some_bytes p hit = strtok-stop ds s rest b d p hit

pub token-end : (ds s : Bytes) → 1 ≤ length s → Plain ds s → strtok ds s ≡ some (s, [])
token-end ds [] some_bytes p = absurd (omega arith)
token-end ds (b ∷ s) some_bytes p = strtok-end ds s b p

pub skip_delims-head :
    (ds s : Bytes) (b : ℕ) → mem_byte b ds ≡ false → skip_delims ds (b ∷ s) ≡ b ∷ s
unfolding skip_delims
skip_delims-head ds s b plain = rw plain refl

pub skip_delims-Plain : (ds s : Bytes) → Plain ds s → skip_delims ds s ≡ s
unfolding skip_delims
skip_delims-Plain ds [] p = refl
skip_delims-Plain ds (b ∷ s) p = skip_delims-head ds s b p.0

pub skip_delims-front :
    (ds s rest : Bytes) → 1 ≤ length s → Plain ds s → skip_delims ds (s ++ rest) ≡ s ++ rest
skip_delims-front ds [] rest some_bytes p = absurd (omega arith)
skip_delims-front ds (b ∷ s) rest some_bytes p = skip_delims-head ds (s ++ rest) b p.0
