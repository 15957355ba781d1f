-- ===== src/Request/Fields.antt =====
-- What the headers of a printed request make of the object, field by field.
use network_server.Base.{
  ℕ, ◌+◌, ◌<◌, ◌≡◌, ◌⊎◌, inl, inr, refl, ap, subst, sym, ◌∙◌, Bool, true, false, Bool-cases,
  Option-cases, none, some, List, [], ◌∷◌, ◌++◌, arith, length, length-append, if◌then◌else◌, Bytes,
  codes, bytes_eq, bytes_eq_iff, drop, ltb, ok, and_then,
}
use network_server.CString.{strstr}
use network_server.CString.Search.{strstr-length}
use network_server.Request.{CharPtr, null_char, points_to, dangling, HttpRequest, assign_header}
use network_server.Request.Build.{line_break, set_boundary}
use network_server.Request.Headers.{header_line}
use network_server.Request.Printed.{Header, header_text, assign_headers}

-- What the last header of a name says, at its place, for headers behind `place`.
abbrev pub value_of : (name key : Bytes) → CharPtr → CharPtr → CharPtr
value_of name key v old = if bytes_eq key name then v else old

abbrev pub last_value : Bytes → ℕ → List Header → CharPtr → CharPtr
last_value name place [] old = old
last_value name place (h ∷ hs) old =
    last_value name (place + 2 + length (header_line h.key h.value)) hs
      (value_of name h.key (points_to (place + 2 + length h.key + 2) h.value) old)

abbrev pub last_range : List Header → Bytes → Bytes
last_range [] old = old
last_range (h ∷ hs) old = last_range hs (if bytes_eq h.key (codes "Range") then h.value else old)

abbrev pub with_headers : ℕ → List Header → HttpRequest → HttpRequest
with_headers place hs r = record r {
  host = last_value (codes "Host") place hs r.host;
  user_agent = last_value (codes "User-Agent") place hs r.user_agent;
  accept = last_value (codes "Accept") place hs r.accept;
  accept_language = last_value (codes "Accept-Language") place hs r.accept_language;
  accept_encoding = last_value (codes "Accept-Encoding") place hs r.accept_encoding;
  content_length = last_value (codes "Content-Length") place hs r.content_length;
  content_type = last_value (codes "Content-Type") place hs r.content_type;
  dnt = last_value (codes "DNT") place hs r.dnt;
  connection = last_value (codes "Connection") place hs r.connection;
  upgrade_insecure_requests =
      last_value (codes "Upgrade-Insecure-Requests") place hs r.upgrade_insecure_requests;
  upgrade = last_value (codes "Upgrade") place hs r.upgrade;
  sec_websocket_key = last_value (codes "Sec-WebSocket-Key") place hs r.sec_websocket_key;
  x_forwarded_for = last_value (codes "X-Forwarded-For") place hs r.x_forwarded_for;
  range_str = last_range hs r.range_str;
}

abbrev with_header : Bytes → ℕ → Bytes → HttpRequest → HttpRequest
with_header key place text r =
    let v = points_to place text in
    record r {
      host = value_of (codes "Host") key v r.host;
      user_agent = value_of (codes "User-Agent") key v r.user_agent;
      accept = value_of (codes "Accept") key v r.accept;
      accept_language = value_of (codes "Accept-Language") key v r.accept_language;
      accept_encoding = value_of (codes "Accept-Encoding") key v r.accept_encoding;
      content_length = value_of (codes "Content-Length") key v r.content_length;
      content_type = value_of (codes "Content-Type") key v r.content_type;
      dnt = value_of (codes "DNT") key v r.dnt;
      connection = value_of (codes "Connection") key v r.connection;
      upgrade_insecure_requests =
          value_of (codes "Upgrade-Insecure-Requests") key v r.upgrade_insecure_requests;
      upgrade = value_of (codes "Upgrade") key v r.upgrade;
      sec_websocket_key = value_of (codes "Sec-WebSocket-Key") key v r.sec_websocket_key;
      x_forwarded_for = value_of (codes "X-Forwarded-For") key v r.x_forwarded_for;
      range_str = if bytes_eq key (codes "Range") then text else r.range_str;
    }

data Name : Type 0 where
  host user_agent accept accept_language accept_encoding content_length content_type dnt : Name
  connection upgrade_insecure_requests upgrade sec_websocket_key x_forwarded_for range : Name

abbrev spelling : Name → Bytes
spelling host = codes "Host"
spelling user_agent = codes "User-Agent"
spelling accept = codes "Accept"
spelling accept_language = codes "Accept-Language"
spelling accept_encoding = codes "Accept-Encoding"
spelling content_length = codes "Content-Length"
spelling content_type = codes "Content-Type"
spelling dnt = codes "DNT"
spelling connection = codes "Connection"
spelling upgrade_insecure_requests = codes "Upgrade-Insecure-Requests"
spelling upgrade = codes "Upgrade"
spelling sec_websocket_key = codes "Sec-WebSocket-Key"
spelling x_forwarded_for = codes "X-Forwarded-For"
spelling range = codes "Range"

abbrev names : List Name
names =
    host ∷ user_agent ∷ accept ∷ accept_language ∷ accept_encoding ∷ content_length ∷ content_type
    ∷ dnt ∷ connection ∷ upgrade_insecure_requests ∷ upgrade ∷ sec_websocket_key ∷ x_forwarded_for
    ∷ range ∷ []

abbrev AllDiffer : Bytes → List Name → Type 0
AllDiffer key [] = Unit {0}
AllDiffer key (n ∷ ns) = (bytes_eq key (spelling n) ≡ false) × AllDiffer key ns

known_or_not : (key : Bytes) (ns : List Name) → ((n : Name) × (spelling n ≡ key)) ⊎ AllDiffer key ns
known_or_not key [] = inr tt
known_or_not key (n ∷ ns) = elim (Bool-cases (bytes_eq key (spelling n))) [
  | inl same ↦ inl (n, sym ((bytes_eq_iff key (spelling n)).0 same))
  | inr differs ↦ elim (known_or_not key ns) [
    | inl known ↦ inl known
    | inr differ ↦ inr (differs, differ)
  ]
]

module _ (place : ℕ) (text : Bytes) (r : HttpRequest) where
  abbrev Assigned : Bytes → Type 0
  Assigned key = assign_header key (points_to place text) r ≡ ok tt (with_header key place text r)

  assign_header-known : (n : Name) → Assigned (spelling n)
  unfolding assign_header bytes_eq
  assign_header-known host = refl
  assign_header-known user_agent = refl
  assign_header-known accept = refl
  assign_header-known accept_language = refl
  assign_header-known accept_encoding = refl
  assign_header-known content_length = refl
  assign_header-known content_type = refl
  assign_header-known dnt = refl
  assign_header-known connection = refl
  assign_header-known upgrade_insecure_requests = refl
  assign_header-known upgrade = refl
  assign_header-known sec_websocket_key = refl
  assign_header-known x_forwarded_for = refl
  assign_header-known range = refl

  assign_header-unknown : (key : Bytes) → AllDiffer key names → Assigned key
  unfolding assign_header
  assign_header-unknown key
        (a, (b, (c, (d, (e, (f, (g, (h, (i, (j, (k, (l, (m, (n, _)))))))))))))) =
      rw (a, b, c, d, e, f, g, h, i, j, k, l, m, n, assign_header) refl

  assign_header-ok : (key : Bytes) → Assigned key
  assign_header-ok key = elim (known_or_not key names) [
    | inl (n, same) ↦ subst Assigned same (assign_header-known n)
    | inr differ ↦ assign_header-unknown key differ
  ]

pub assign_headers-ok :
    (place : ℕ) (hs : List Header) (r : HttpRequest)
    → assign_headers place hs r ≡ ok tt (with_headers place hs r)
assign_headers-ok place [] r = refl
assign_headers-ok place (h ∷ hs) r =
    let at_value = place + 2 + length h.key + 2 in
    let after = place + 2 + length (header_line h.key h.value) in
    ap (λ run. and_then run (λ _. assign_headers after hs))
      (assign_header-ok at_value h.value r h.key)
    ∙ assign_headers-ok after hs (with_header h.key at_value h.value r)

-- The boundary of a type of content: all that comes behind `boundary=`.
unfoldable pub with_boundary : CharPtr → HttpRequest → HttpRequest
with_boundary null_char r = r
with_boundary dangling r = r
with_boundary (points_to place text) r = elim (strstr (codes "boundary=") text) [
  | none ↦ r
  | some (front, found) ↦ record r {
    boundary_str = codes "--" ++ drop 9 found ++ line_break;
    boundary_last_str = codes "--" ++ drop 9 found ++ codes "--";
  }
]

-- A value that ends before the end of the text.
abbrev pub Ending : ℕ → CharPtr → Type 0
Ending size null_char = Unit {0}
Ending size dangling = ⊥
Ending size (points_to place text) = place + length text < size

value_of-Ending :
    (size : ℕ) (same : Bool) (v old : CharPtr)
    → Ending size v
    → Ending size old
    → Ending size (if same then v else old)
value_of-Ending size true v old a b = a
value_of-Ending size false v old a b = b

last_value-Ending :
    (name : Bytes) (size place : ℕ) (hs : List Header) (old : CharPtr)
    → place + length (header_text hs) < size
    → Ending size old
    → Ending size (last_value name place hs old)
last_value-Ending name size place [] old inside e = e
last_value-Ending name size place (h ∷ hs) old inside e =
    let line = length-append h.key (58 ∷ 32 ∷ h.value) in
    let both = length-append (header_line h.key h.value) (header_text hs) in
    last_value-Ending name size (place + 2 + length (header_line h.key h.value)) hs _
      (omega (arith, both, inside))
      (value_of-Ending size (bytes_eq h.key name) _ old (omega (arith, line, both, inside)) e)

set_boundary-Ending :
    (size : ℕ) (type : CharPtr) (r : HttpRequest)
    → Ending size type
    → set_boundary size (record r { content_type = type })
      ≡ ok tt (with_boundary type (record r { content_type = type }))
unfolding set_boundary with_boundary
set_boundary-Ending size null_char r ending = refl
set_boundary-Ending size dangling r ending = absurd ending
set_boundary-Ending size (points_to place text) r ending =
    elim (Option-cases (strstr (codes "boundary=") text)) [
      | inl nothing ↦ rw (nothing, set_boundary, with_boundary) refl
      | inr ((front, found), f) ↦
          let within : ltb (place + length front + 9) size ≡ true =
            ground (arith, strstr-length (codes "boundary=") text front found f) in
          rw (f, within, set_boundary, with_boundary) refl
    ]

-- All the headers are assigned, and the boundary is found.
pub assign_headers-set_boundary :
    (size place : ℕ) (hs : List Header) (r : HttpRequest)
    → place + length (header_text hs) < size
    → Ending size r.content_type
    → and_then (assign_headers place hs r) (λ _. set_boundary size)
      ≡ ok tt (
          with_boundary
            (last_value (codes "Content-Type") place hs r.content_type)
            (with_headers place hs r))
assign_headers-set_boundary size place hs r inside before =
    ap (λ run. and_then run (λ _. set_boundary size)) (assign_headers-ok place hs r)
    ∙ set_boundary-Ending size (last_value (codes "Content-Type") place hs r.content_type)
        (with_headers place hs r)
        (last_value-Ending (codes "Content-Type") size place hs r.content_type inside before)
