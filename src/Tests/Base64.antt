-- ===== src/Tests/Base64.antt =====
-- Base64 on small inputs.
use network_server.Base.{◌≡◌, refl, some, [], ◌∷◌, ◌++◌, arith, codes}
use network_server.CString.{c_string}
use network_server.Base64.{b64_alphabet, b64quartet, quartets, overwrite, b64_encode}
use network_server.Base64.RoundTrip.{b64_decode, b64_decode-b64_encode}

encoded : b64_encode (codes "light wor") ≡ codes "bGlnaHQgd29y"
unfolding b64_encode b64_alphabet b64quartet quartets overwrite c_string
encoded = refl

encoded_padded : b64_encode (codes "light w") ≡ codes "bGlnaHQgdw=="
unfolding b64_encode b64_alphabet b64quartet quartets overwrite c_string
encoded_padded = refl

-- The input ends at its first null byte.
cut : b64_encode (codes "lig" ++ 0 ∷ codes "ht") ≡ b64_encode (codes "lig")
unfolding b64_encode c_string
cut = refl

b64_decode-b64_encode_example :
    b64_decode (b64_encode (200 ∷ 7 ∷ 255 ∷ 13 ∷ [])) ≡ some (c_string (200 ∷ 7 ∷ 255 ∷ 13 ∷ []))
b64_decode-b64_encode_example =
    b64_decode-b64_encode (200 ∷ 7 ∷ 255 ∷ 13 ∷ [])
      (omega arith, (omega arith, (omega arith, (omega arith, tt))))
