-- ===== src/Base64.antt =====
-- `b64_encode` of src/utility.cpp.
pub mod RoundTrip
use network_server.Base.{
  ℕ, zero, suc, ◌+◌, ◌-◌, ◌*◌, ◌/◌, ◌%◌, List, [], ◌∷◌, ◌++◌, ltb, ◌==◌, if◌then◌else◌, Bytes,
  length, take,
}
use network_server.CString.{c_string}

-- `b64_alphabet`: the letters, the digits, `+` and `/`.
unfoldable pub b64_alphabet : ℕ → ℕ
b64_alphabet i =
    if ltb i 26
    then 65 + i
    else if ltb i 52
    then 71 + i
    else if ltb i 62
    then i - 4
    else if i == 62
    then 43
    else 47

-- The constructor of `b64quartet`: the masks and shifts are remainders and quotients.
unfoldable pub b64quartet : ℕ → ℕ → ℕ → Bytes
b64quartet a b c =
    b64_alphabet (a % 256 / 4)
    ∷ b64_alphabet (a % 4 * 16 + b % 256 / 16)
    ∷ b64_alphabet (b % 16 * 4 + c % 256 / 64)
    ∷ b64_alphabet (c % 64)
    ∷ []

-- The first loop; bytes behind the end count as zero.
unfoldable pub quartets : Bytes → Bytes
quartets [] = []
quartets (a ∷ []) = b64quartet a 0 0
quartets (a ∷ b ∷ []) = b64quartet a b 0
quartets (a ∷ b ∷ c ∷ s) = b64quartet a b c ++ quartets s

abbrev pub padding : ℕ → Bytes
padding zero = []
padding (suc n) = 61 ∷ padding n

-- The second loop overwrites the last characters.
unfoldable pub overwrite : Bytes → ℕ → Bytes
overwrite text n = take (length text - n) text ++ padding n

-- The part of the bytes that is encoded ends where `strlen` ends it: before the first null byte.
unfoldable pub b64_encode : Bytes → Bytes
b64_encode str = let s = c_string str in overwrite (quartets s) ((3 - length s % 3) % 3)
