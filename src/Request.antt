-- ===== src/Request.antt =====
-- src/http_request.cpp: a request, and the parsers of its lines. A line is given with its place in
-- the buffer, since the `char *` fields point into it.
pub mod Build
pub mod Fields
pub mod Split
pub mod Lines
pub mod Headers
pub mod RequestLine
pub mod Printed
pub mod RoundTrip
pub mod Items
pub mod Total
use network_server.Base.{
  ℕ, zero, suc, ◌+◌, ◌-◌, Bool, true, false, not, ◌&&◌, ◌||◌, Option, none, some, List, [], ◌∷◌,
  ◌++◌, ltb, leb, ◌==◌, if◌then◌else◌, Bytes, codes, bytes_eq, starts_with, length, drop, ok,
  or_fault, out_of_fuel, Cmd, pure, read, modify, ◌>>=◌, ◌>>◌,
}
use network_server.CString.{skip_delims, strtok, strchr}

-- A `char *`: null, the string at a place in the buffer, or an address that no object has.
pub data CharPtr : Type 0 where
  null_char : CharPtr
  points_to : (place : ℕ) → Bytes → CharPtr
  dangling : CharPtr

-- An item of a POST body. The pointers are null or places in the request's buffer.
pub record PostContent : Type 0 where
  pub name : Option ℕ
  pub filename : Option ℕ
  pub item_type : Option ℕ
  pub content_disposition : Option ℕ
  pub size : ℕ
  pub data_at : Option ℕ

-- `buff` is the copy of the bytes that were received.
pub record HttpRequest : Type 0 where
  pub boundary_str : Bytes
  pub boundary_last_str : Bytes
  pub range_str : Bytes
  pub path : Bytes
  pub req_type : Bytes
  pub subdirs : List Bytes
  pub host : CharPtr
  pub user_agent : CharPtr
  pub accept : CharPtr
  pub accept_language : CharPtr
  pub accept_encoding : CharPtr
  pub content_length : CharPtr
  pub content_type : CharPtr
  pub dnt : CharPtr
  pub connection : CharPtr
  pub upgrade_insecure_requests : CharPtr
  pub upgrade : CharPtr
  pub sec_websocket_key : CharPtr
  pub x_forwarded_for : CharPtr
  pub content : CharPtr
  pub buff : Option Bytes
  pub items : List PostContent
  pub valid_req : Bool

-- The member initialisers.
abbrev pub empty_request : HttpRequest
empty_request = record {
  boundary_str = [];
  boundary_last_str = [];
  range_str = [];
  path = [];
  req_type = [];
  subdirs = [];
  host = null_char;
  user_agent = null_char;
  accept = null_char;
  accept_language = null_char;
  accept_encoding = null_char;
  content_length = null_char;
  content_type = null_char;
  dnt = null_char;
  connection = null_char;
  upgrade_insecure_requests = null_char;
  upgrade = null_char;
  sec_websocket_key = null_char;
  x_forwarded_for = null_char;
  content = null_char;
  buff = none;
  items = [];
  valid_req = true;
}

-- The string that the C library reads at a pointer, and the place of the pointer in the buffer.
abbrev pub char_text : CharPtr → Option Bytes
char_text null_char = none
char_text (points_to place s) = some s
char_text dangling = none

abbrev pub char_place : CharPtr → Option ℕ
char_place null_char = none
char_place (points_to place s) = some place
char_place dangling = none

abbrev pub RequestCmd : Type 0 → Type 0
RequestCmd A = Cmd HttpRequest A

abbrev pub invalidate : RequestCmd (Unit {0})
invalidate = modify λ r. record r { valid_req = false }

-- Each test of the loop may set the type; the last one that fits stays.
unfoldable pub find_type : Bytes → List Bytes → Option Bytes → Option Bytes
find_type token [] found = found
find_type token (type ∷ types) found =
    find_type token types (if starts_with type token then some type else found)

abbrev pub req_types : List Bytes
req_types = codes "GET" ∷ codes "PUT" ∷ codes "POST" ∷ codes "DELETE" ∷ []

-- `while ((tok_ptr = strtok_r(path_ptr, "/", &save_ptr)) != nullptr) subdirs.push_back(tok_ptr);`
unfoldable pub split_path : ℕ → Bytes → RequestCmd (Unit {0})
split_path zero text r = out_of_fuel
split_path (suc fuel) text r = elim (strtok (codes "/") text) [
  | none ↦ ok tt r
  | some (token, rest) ↦ split_path fuel rest (record r { subdirs = r.subdirs ++ token ∷ [] })
]

abbrev pub is_http_ver : Bytes → Bool
is_http_ver text = bytes_eq text (codes "HTTP/1.1") || bytes_eq text (codes "HTTP/1.0")

-- The path and the version behind the type.
unfoldable pub path_and_version : Bytes → RequestCmd (Unit {0})
unfolding split_path
path_and_version text = elim (strtok (codes " ") text) [
  | none ↦ invalidate
  | some (path, rest) ↦ elim (strtok (codes " ") rest) [
    | none ↦ invalidate
    | some (version, _) ↦ if not (is_http_ver version) then invalidate else do
      modify λ r. record r { path = if bytes_eq path (codes "/") then codes "index.html" else path }
      split_path (length path + 1) path
  ]
]

unfoldable pub req_type_data_parser : Bytes → RequestCmd (Unit {0})
unfolding find_type path_and_version
req_type_data_parser token_str =
    if ltb (length token_str) (length (codes "GET / HTTP/1.1")) then invalidate else do
      elim (find_type token_str req_types none) [
        | none ↦ invalidate
        | some type ↦ do
          modify λ r. record r { req_type = type }
          path_and_version (drop (length type + 1) token_str)
      ]

unfoldable pub assign_header : Bytes → CharPtr → RequestCmd (Unit {0})
assign_header key v =
    if bytes_eq key (codes "Host")
    then modify (λ r. record r { host = v })
    else if bytes_eq key (codes "User-Agent")
    then modify (λ r. record r { user_agent = v })
    else if bytes_eq key (codes "Accept")
    then modify (λ r. record r { accept = v })
    else if bytes_eq key (codes "Accept-Language")
    then modify (λ r. record r { accept_language = v })
    else if bytes_eq key (codes "Accept-Encoding")
    then modify (λ r. record r { accept_encoding = v })
    else if bytes_eq key (codes "Content-Length")
    then modify (λ r. record r { content_length = v })
    else if bytes_eq key (codes "Content-Type")
    then modify (λ r. record r { content_type = v })
    else if bytes_eq key (codes "DNT")
    then modify (λ r. record r { dnt = v })
    else if bytes_eq key (codes "Connection")
    then modify (λ r. record r { connection = v })
    else if bytes_eq key (codes "Upgrade-Insecure-Requests")
    then modify (λ r. record r { upgrade_insecure_requests = v })
    else if bytes_eq key (codes "Upgrade")
    then modify (λ r. record r { upgrade = v })
    else if bytes_eq key (codes "Sec-WebSocket-Key")
    then modify (λ r. record r { sec_websocket_key = v })
    else if bytes_eq key (codes "X-Forwarded-For")
    then modify (λ r. record r { x_forwarded_for = v })
    else if bytes_eq key (codes "Range")
    then (do s ← or_fault (char_text v); modify λ r. record r { range_str = s })
    else pure tt

-- The value behind the first space, at its place. Without a space `strchr` is null, and the pointer
-- is one byte behind it, which is not less than the end of the value only if it has no bytes.
unfoldable pub value_after_space : ℕ → Bytes → Option CharPtr
value_after_space place value = elim (strchr 32 value) [
  | none ↦ some dangling
  | some spaced ↦
      if leb (length spaced) 1
      then none
      else some (points_to (place + (length value + 1 - length spaced)) (drop 1 spaced))
]

-- `strtok_r` gives a token, its place in the text, and what is left.
unfoldable pub token_at : Bytes → ℕ → Bytes → Option (ℕ × (Bytes × (ℕ × Bytes)))
token_at ds place text = elim (strtok ds text) [
  | none ↦ none
  | some (token, rest) ↦ some (
    place + (length text - length (skip_delims ds text)),
    (token, (place + (length text - length rest), rest)),
  )
]

unfoldable pub http_header_parser : ℕ → Bytes → RequestCmd (Unit {0})
unfolding value_after_space assign_header token_at
http_header_parser place token_str =
    if ltb (length token_str) (length (codes "a:b"))
    then pure tt
    else elim (token_at (codes ":") place token_str) [
      | none ↦ pure tt
      | some (_, (key, (after, rest))) ↦ elim (token_at (codes ":") after rest) [
        | none ↦ pure tt
        | some (at_value, (value, _)) ↦ elim (value_after_space at_value value) [
          | none ↦ pure tt
          | some v ↦ assign_header key v
        ]
      ]
    ]
