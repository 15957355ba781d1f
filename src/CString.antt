-- ===== src/CString.antt =====
-- The functions of the C library on zero-terminated strings that src/http_request.cpp calls. A
-- string is its bytes up to the null byte.
pub mod Tokens
pub mod Search
use network_server.Base.{
  ℕ, Bool, true, false, ◌||◌, Option, none, some, [], ◌∷◌, ◌==◌, if◌then◌else◌, Bytes, starts_with,
}

abbrev pub mem_byte : ℕ → Bytes → Bool
mem_byte b [] = false
mem_byte b (d ∷ ds) = b == d || mem_byte b ds

-- `strtok_r`: the leading delimiters are skipped, and the token runs to the next one. What is left
-- starts behind that delimiter, which is overwritten by a null byte.
unfoldable pub skip_delims : Bytes → Bytes → Bytes
skip_delims ds [] = []
skip_delims ds (b ∷ s) = if mem_byte b ds then skip_delims ds s else b ∷ s

unfoldable pub span_token : Bytes → Bytes → Bytes × Bytes
span_token ds [] = ([], [])
span_token ds (b ∷ s) =
    let (token, rest) = span_token ds s in if mem_byte b ds then ([], s) else (b ∷ token, rest)

unfoldable pub strtok : Bytes → Bytes → Option (Bytes × Bytes)
unfolding skip_delims span_token
strtok ds s = elim (skip_delims ds s) [ [] ↦ none | b ∷ t ↦ some (span_token ds (b ∷ t)) ]

-- `strchr`: the text from the first such byte.
unfoldable pub strchr : ℕ → Bytes → Option Bytes
strchr c [] = none
strchr c (b ∷ s) = let rest = strchr c s in if b == c then some (b ∷ s) else rest

-- `strstr`: the text before the first occurrence, and the text from it.
unfoldable pub strstr : Bytes → Bytes → Option (Bytes × Bytes)
strstr needle [] = if starts_with needle [] then some ([], []) else none
strstr needle (b ∷ s) =
    let later = strstr needle s in
    if starts_with needle (b ∷ s)
    then some ([], b ∷ s)
    else elim later [ none ↦ none | some (before, found) ↦ some (b ∷ before, found) ]

-- The string that starts at the first byte of a memory.
unfoldable pub c_string : Bytes → Bytes
c_string [] = []
c_string (b ∷ s) = let rest = c_string s in if b == 0 then [] else b ∷ rest
