-- ===== src/Request/Split.antt =====
-- The loops over `strtok_r` of src/http_request.cpp and a split of the whole text at its delimiters.
use network_server.Base.{
  inl, inr, ℕ, zero, suc, ◌+◌, ◌<◌, ◌≡◌, refl, ap, ◌∙◌, none, some, List, [], ◌∷◌, ◌++◌,
  append_assoc, append-nil, arith, length, Bytes, codes, Bool-cases, Option-cases, if◌then◌else◌,
  ok,
}
use network_server.CString.{mem_byte, skip_delims, span_token, strtok}
use network_server.CString.Tokens.{strtok-shorter}
use network_server.Request.{HttpRequest, split_path}

-- The text up to the first delimiter, and the pieces behind it.
unfoldable pub split_on : Bytes → Bytes → Bytes × List Bytes
split_on ds [] = ([], [])
split_on ds (b ∷ s) =
    let (first, more) = split_on ds s in
    if mem_byte b ds then ([], first ∷ more) else (b ∷ first, more)

unfoldable pub non_empty : List Bytes → List Bytes
non_empty [] = []
non_empty ([] ∷ pieces) = non_empty pieces
non_empty ((b ∷ s) ∷ pieces) = (b ∷ s) ∷ non_empty pieces

-- The pieces that are not empty.
unfoldable pub pieces : Bytes → Bytes → List Bytes
unfolding split_on non_empty
pieces ds s = non_empty ((split_on ds s).0 ∷ (split_on ds s).1)

pub record Spanned (ds s : Bytes) : Type 0 where
  pub first : (split_on ds s).0 ≡ (span_token ds s).0
  pub more : non_empty (split_on ds s).1 ≡ pieces ds (span_token ds s).1

pub span_token-Spanned : (ds s : Bytes) → Spanned ds s
unfolding split_on span_token non_empty pieces
span_token-Spanned ds [] = record { first = refl; more = refl }
span_token-Spanned ds (b ∷ s) =
    let rest = span_token-Spanned ds s in
    elim (Bool-cases (mem_byte b ds)) [
      | inl delim ↦ record { first = rw delim refl; more = rw delim refl }
      | inr plain ↦ record { first = rw plain (ap (◌∷◌ b) rest.first); more = rw plain rest.more }
    ]

strtok-none : (ds s : Bytes) → strtok ds s ≡ none → pieces ds s ≡ []
unfolding strtok skip_delims split_on non_empty pieces
strtok-none ds [] e = refl
strtok-none ds (b ∷ s) e = elim (Bool-cases (mem_byte b ds)) [
  | inl delim ↦ ground (arith, delim, strtok-none ds s)
  | inr plain ↦ ground (arith, plain)
]

strtok-some :
    (ds s token rest : Bytes)
    → strtok ds s ≡ some (token, rest)
    → pieces ds s ≡ token ∷ pieces ds rest
unfolding strtok skip_delims split_on non_empty pieces span_token
strtok-some ds [] token rest e = ground arith
strtok-some ds (b ∷ s) token rest e = elim (Bool-cases (mem_byte b ds)) [
  | inl delim ↦ ground (arith, delim, strtok-some ds s token rest)
  | inr plain ↦
      ground (arith, plain, (span_token-Spanned ds s).first, (span_token-Spanned ds s).more)
]

split_path-pieces :
    (fuel : ℕ) (text : Bytes) (r : HttpRequest)
    → length text < fuel
    → split_path fuel text r ≡ ok tt (record r { subdirs = r.subdirs ++ pieces (codes "/") text })
unfolding split_path
split_path-pieces zero text r enough = absurd (omega arith)
split_path-pieces (suc fuel) text r enough = elim (Option-cases (strtok (codes "/") text)) [
  | inl over ↦ rw (over, split_path, strtok-none (codes "/") text over, append-nil) refl
  | inr ((token, rest), e) ↦
      rw (e, split_path)
        (split_path-pieces fuel rest _ (omega (arith, strtok-shorter (codes "/") text token rest e))
          ∙ rw (strtok-some (codes "/") text token rest e, append_assoc) refl)
]

-- The subdirectories of a path are its pieces between slashes that are not empty.
pub split_path_lem :
    (path : Bytes) (r : HttpRequest)
    → split_path (length path + 1) path r
      ≡ ok tt (record r { subdirs = r.subdirs ++ pieces (codes "/") path })
split_path_lem path r = split_path-pieces (length path + 1) path r (omega arith)
