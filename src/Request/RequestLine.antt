-- ===== src/Request/RequestLine.antt =====
-- src/http_request.cpp: what the parser of the first line takes from it.
use network_server.Base.{
  ◌+◌, ◌≤◌, ◌≡◌, refl, Bool, true, false, not, ◌&&◌, inl, inr, Bool-cases, none, some, [], ◌∷◌,
  ◌++◌, arith, length, length-append, drop, Bytes, codes, bytes_eq, starts_with, ltb, if◌then◌else◌,
  ok,
}
use network_server.CString.{mem_byte, skip_delims, span_token, strtok}
use network_server.CString.Tokens.{Plain, Plain-append, Plain-weaken, token-stop}
use network_server.Request.{
  HttpRequest, req_types, find_type, is_http_ver, path_and_version, req_type_data_parser,
}
use network_server.Request.Split.{pieces, split_path_lem}

-- The methods and the versions that the parser knows.
pub data Method : Type 0 where
  get put post delete : Method

abbrev pub method_name : Method → Bytes
method_name get = codes "GET"
method_name put = codes "PUT"
method_name post = codes "POST"
method_name delete = codes "DELETE"

pub data Version : Type 0 where
  http10 http11 : Version

abbrev pub version_name : Version → Bytes
version_name http10 = codes "HTTP/1.0"
version_name http11 = codes "HTTP/1.1"

abbrev pub request_line : Method → Bytes → Version → Bytes
request_line m path v = method_name m ++ (32 ∷ (path ++ (32 ∷ version_name v)))

find_type-method :
    (m : Method) (rest : Bytes)
    → find_type (method_name m ++ rest) req_types none ≡ some (method_name m)
unfolding find_type starts_with
find_type-method get rest = refl
find_type-method put rest = refl
find_type-method post rest = refl
find_type-method delete rest = refl

drop-method :
    (m : Method) (rest : Bytes)
    → drop (length (method_name m) + 1) (method_name m ++ (32 ∷ rest)) ≡ rest
drop-method get rest = refl
drop-method put rest = refl
drop-method post rest = refl
drop-method delete rest = refl

version-end : (v : Version) → strtok (codes " ") (version_name v) ≡ some (version_name v, [])
unfolding strtok skip_delims span_token
version-end http10 = refl
version-end http11 = refl

is_http_ver-version : (v : Version) → is_http_ver (version_name v) ≡ true
unfolding bytes_eq
is_http_ver-version http10 = refl
is_http_ver-version http11 = refl

-- The path that is kept: the root stands for a file.
abbrev pub served_path : Bytes → Bytes
served_path path = if bytes_eq path (codes "/") then codes "index.html" else path

path_and_version-tokens :
    (path version rest more : Bytes) (text : Bytes) (r : HttpRequest)
    → strtok (codes " ") text ≡ some (path, rest)
    → strtok (codes " ") rest ≡ some (version, more)
    → is_http_ver version ≡ true
    → path_and_version text r
      ≡ ok tt (record r { path = served_path path; subdirs = r.subdirs ++ pieces (codes "/") path })
unfolding path_and_version
path_and_version-tokens path version rest more text r e f known =
    rw (e, f, known, path_and_version) (split_path_lem path (record r { path = served_path path }))

length-path_version :
    (path : Bytes) (v : Version) → length (path ++ (32 ∷ version_name v)) ≡ length path + 9
length-path_version path http10 = length-append path (32 ∷ version_name http10)
length-path_version path http11 = length-append path (32 ∷ version_name http11)

long_line :
    (m : Method) (path : Bytes) (v : Version)
    → 1 ≤ length path
    → ltb (length (request_line m path v)) (length (codes "GET / HTTP/1.1")) ≡ false
long_line get path v some_path = ground (arith, length-path_version path v)
long_line put path v some_path = ground (arith, length-path_version path v)
long_line post path v some_path = ground (arith, length-path_version path v)
long_line delete path v some_path = ground (arith, length-path_version path v)

-- A request line is taken apart at its spaces.
pub req_type_data_parser-request_line :
    (m : Method) (path : Bytes) (v : Version) (r : HttpRequest)
    → 1 ≤ length path
    → Plain (codes " ") path
    → req_type_data_parser (request_line m path v) r
      ≡ ok tt (record r {
        req_type = method_name m;
        path = served_path path;
        subdirs = r.subdirs ++ pieces (codes "/") path;
      })
unfolding req_type_data_parser
req_type_data_parser-request_line m path v r some_path plain =
    let tail = path ++ (32 ∷ version_name v) in
    let named = record r { req_type = method_name m } in
    rw
      (
        long_line m path v some_path,
        find_type-method m (32 ∷ tail),
        drop-method m tail,
        req_type_data_parser,
      )
      (path_and_version-tokens path (version_name v) (version_name v) [] tail named
        (token-stop (codes " ") path (version_name v) 32 some_path plain refl) (version-end v)
        (is_http_ver-version v))

abbrev plain_text : Bytes → Bytes → Bool
plain_text ds [] = true
plain_text ds (b ∷ s) = not (mem_byte b ds) && plain_text ds s

plain_text-Plain : (ds s : Bytes) → plain_text ds s ≡ true → Plain ds s
plain_text-Plain ds [] e = tt
plain_text-Plain ds (b ∷ s) e = elim (Bool-cases (mem_byte b ds)) [
  | inl delim ↦ ground (arith, delim)
  | inr plain ↦ (plain, plain_text-Plain ds s (ground (arith, plain)))
]

-- The bytes that end a line or the text.
abbrev pub ends : Bytes
ends = 13 ∷ 10 ∷ 0 ∷ []

method-Plain : (m : Method) → Plain ends (method_name m)
method-Plain get = plain_text-Plain ends (method_name get) refl
method-Plain put = plain_text-Plain ends (method_name put) refl
method-Plain post = plain_text-Plain ends (method_name post) refl
method-Plain delete = plain_text-Plain ends (method_name delete) refl

version-Plain : (v : Version) → Plain ends (version_name v)
version-Plain http10 = plain_text-Plain ends (version_name http10) refl
version-Plain http11 = plain_text-Plain ends (version_name http11) refl

-- A text with none of the bytes that end a path.
abbrev pub PathPart : Bytes → Type 0
PathPart s = Plain (32 ∷ 13 ∷ 10 ∷ 0 ∷ []) s

pub request_line-Plain :
    (m : Method) (path : Bytes) (v : Version) → PathPart path → Plain ends (request_line m path v)
request_line-Plain m path v p =
    let path_plain = Plain-weaken (32 ∷ 13 ∷ 10 ∷ 0 ∷ []) ends path (λ b out. ground arith) p in
    Plain-append ends (method_name m) _ (method-Plain m)
      (refl, Plain-append ends path (32 ∷ version_name v) path_plain (refl, version-Plain v))

pub length-request_line :
    (m : Method) (path : Bytes) (v : Version)
    → length (request_line m path v) ≡ length (method_name m) + length path + 10
length-request_line m path v = omega (
  arith,
  length-append (method_name m) (32 ∷ (path ++ (32 ∷ version_name v))),
  length-path_version path v,
)
