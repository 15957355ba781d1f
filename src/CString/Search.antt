-- ===== src/CString/Search.antt =====
-- `strstr`, and the string in a memory without null bytes.
use network_server.Base.{
  ◌+◌, ◌≤◌, length, Option-cases, inl, inr, true, ℕ, ◌≡◌, refl, some, [], ◌∷◌, ◌++◌, arith, Bytes,
  starts_with,
}
use network_server.CString.{strstr, c_string}
use network_server.CString.Tokens.{Plain}

pub c_string-Plain : (s : Bytes) → Plain (0 ∷ []) s → c_string s ≡ s
unfolding c_string
c_string-Plain [] p = refl
c_string-Plain (b ∷ s) (now, p) = ground (arith, c_string-Plain s p)

-- An occurrence is not found in front of its first byte.
pub strstr-Plain :
    (c : ℕ) (needle s t front found : Bytes)
    → Plain (c ∷ []) s
    → strstr (c ∷ needle) t ≡ some (front, found)
    → strstr (c ∷ needle) (s ++ t) ≡ some (s ++ front, found)
unfolding strstr starts_with
strstr-Plain c needle [] t front found p e = e
strstr-Plain c needle (b ∷ s) t front found (now, p) e =
    ground (arith, strstr-Plain c needle s t front found p e)

starts_with-length : (p s : Bytes) → starts_with p s ≡ true → length p ≤ length s
unfolding starts_with
starts_with-length [] s e = omega arith
starts_with-length (x ∷ p) [] e = ground arith
starts_with-length (x ∷ p) (y ∷ s) e = ground (arith, starts_with-length p s)

-- An occurrence lies within the text.
pub strstr-length :
    (needle s front found : Bytes)
    → strstr needle s ≡ some (front, found)
    → length front + length needle ≤ length s
unfolding strstr
strstr-length needle [] front found e = ground (arith, starts_with-length needle [])
strstr-length needle (b ∷ s) front found e = elim (Option-cases (strstr needle s)) [
  | inl nowhere ↦ ground (arith, nowhere, starts_with-length needle (b ∷ s))
  | inr ((before, later), f) ↦
      ground (arith, f, starts_with-length needle (b ∷ s), strstr-length needle s before later f)
]
