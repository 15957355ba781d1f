-- ===== src/Request/Total.antt =====
-- The constructor of `http_request` ends for all bytes, and so does the extraction of items behind it.
use network_server.Base.{
  ℕ, ◌+◌, ◌≡◌, refl, ap, sym, subst, Bool, true, false, not, or_fault, inl, inr, none, some, List,
  [], ◌∷◌, arith, length, drop, Bytes, codes, ltb, if◌then◌else◌, Option-cases, Bool-cases, Ends,
  gives, undefined, Ends-bind, Ends-weaken, and_then, pure, modify, bytes_eq,
}
use network_server.CString.{strtok, strstr, c_string}
use network_server.Request.{
  CharPtr, null_char, points_to, dangling, char_text, HttpRequest, empty_request, RequestCmd,
  req_types, invalidate, find_type, is_http_ver, path_and_version, req_type_data_parser, split_path,
  token_at, assign_header, value_after_space, http_header_parser,
}
use network_server.Request.Build.{
  line_break, find_content, request_lines, set_boundary, http_request,
}
use network_server.Request.Split.{split_on, split_path_lem}
use network_server.Request.Lines.{
  text_lines, each_line, header_lines-text_lines, line_at, request_lines-first,
}
use network_server.Request.Items.{extract_post_data_items}
use network_server.Request.Items.Steps.{size_of, Same, Step, Step-bind}
use network_server.Request.Items.Total.{Sound, AllInside, extract_post_data_items-Sound}

-- A command that leaves the buffer and the items alone, and ends.
record Quiet {A : Type 0} (m : RequestCmd A) : Type 0 where
  step : (r : HttpRequest) → Step r (λ _. Unit {0}) (m r)

unchanged : {r s : HttpRequest} → s.buff ≡ r.buff → s.items ≡ r.items → Same r s
unchanged e f = record { same_size = ap size_of e; same_items = f }

if-Quiet :
    {A : Type 0} (b : Bool) {m n : RequestCmd A} → Quiet m → Quiet n → Quiet (if b then m else n)
if-Quiet true p q = p
if-Quiet false p q = q

pure-Quiet : {A : Type 0} (a : A) → Quiet (pure a)
pure-Quiet a = record { step = λ r. gives (unchanged refl refl, tt) }

bind-Quiet :
    {A B : Type 0} {m : RequestCmd A} {k : A → RequestCmd B}
    → Quiet m
    → ((a : A) → Quiet (k a))
    → Quiet (λ r. and_then (m r) k)
bind-Quiet p q = record { step = λ r. Step-bind (p.step r) λ a s e _. (q a).step s }

-- An assignment of fields.
field : {f : HttpRequest → HttpRequest} → ((r : HttpRequest) → Same r (f r)) → Quiet (modify f)
field same = record { step = λ r. gives (same r, tt) }

text-Quiet : (v : CharPtr) → Quiet (or_fault (char_text v))
text-Quiet null_char = record { step = λ r. undefined }
text-Quiet (points_to place s) = pure-Quiet s
text-Quiet dangling = record { step = λ r. undefined }

field-Quiet :
    (b : Bool) {f : HttpRequest → HttpRequest} {n : RequestCmd (Unit {0})}
    → ((r : HttpRequest) → Same r (f r))
    → Quiet n
    → Quiet (if b then modify f else n)
field-Quiet b same rest = if-Quiet b (field same) rest

assign_header-Quiet : (key : Bytes) (v : CharPtr) → Quiet (assign_header key v)
unfolding assign_header
assign_header-Quiet key v =
    let is = λ (name : Bytes). bytes_eq key name in
    field-Quiet (is (codes "Host")) (λ r. unchanged refl refl)
      (field-Quiet (is (codes "User-Agent")) (λ r. unchanged refl refl)
        (field-Quiet (is (codes "Accept")) (λ r. unchanged refl refl)
          (field-Quiet (is (codes "Accept-Language")) (λ r. unchanged refl refl)
            (field-Quiet (is (codes "Accept-Encoding")) (λ r. unchanged refl refl)
              (field-Quiet (is (codes "Content-Length")) (λ r. unchanged refl refl)
                (field-Quiet (is (codes "Content-Type")) (λ r. unchanged refl refl)
                  (field-Quiet (is (codes "DNT")) (λ r. unchanged refl refl)
                    (field-Quiet (is (codes "Connection")) (λ r. unchanged refl refl)
                      (field-Quiet (is (codes "Upgrade-Insecure-Requests"))
                        (λ r. unchanged refl refl)
                        (field-Quiet (is (codes "Upgrade")) (λ r. unchanged refl refl)
                          (field-Quiet (is (codes "Sec-WebSocket-Key")) (λ r. unchanged refl refl)
                            (field-Quiet (is (codes "X-Forwarded-For")) (λ r. unchanged refl refl)
                              (if-Quiet (is (codes "Range"))
                                (bind-Quiet (text-Quiet v) λ s. field λ r. unchanged refl refl)
                                (pure-Quiet tt))))))))))))))

value_after_space-Quiet :
    (key value : Bytes) (at_value : ℕ)
    → Quiet (elim (value_after_space at_value value) as (λ x. RequestCmd (Unit {0})) [
      | none ↦ pure tt
      | some v ↦ assign_header key v
    ])
value_after_space-Quiet key value at_value =
    elim (Option-cases (value_after_space at_value value)) [
      | inl out ↦ rw out (pure-Quiet tt)
      | inr (v, e) ↦ rw e (assign_header-Quiet key v)
    ]

http_header_parser-Quiet : (place : ℕ) (line : Bytes) → Quiet (http_header_parser place line)
unfolding http_header_parser
http_header_parser-Quiet place line =
    if-Quiet (ltb (length line) 3) (pure-Quiet tt)
      (elim (Option-cases (token_at (codes ":") place line)) [
        | inl nothing ↦ rw (nothing, http_header_parser) (pure-Quiet tt)
        | inr ((at_key, (key, (after, rest))), e) ↦
            rw (e, http_header_parser)
              (elim (Option-cases (token_at (codes ":") after rest)) [
                | inl nothing ↦ rw (nothing, http_header_parser) (pure-Quiet tt)
                | inr ((at_value, (value, (end, more))), f) ↦
                    rw (f, http_header_parser) (value_after_space-Quiet key value at_value)
              ])
      ])

split_path-Quiet : (path : Bytes) → Quiet (split_path (length path + 1) path)
split_path-Quiet path = record {
  step = λ r. rw (split_path_lem path r) (gives (unchanged refl refl, tt));
}

invalidate-Quiet : Quiet invalidate
invalidate-Quiet = field λ r. unchanged refl refl

path_and_version-Quiet : (text : Bytes) → Quiet (path_and_version text)
unfolding path_and_version
path_and_version-Quiet text = elim (Option-cases (strtok (codes " ") text)) [
  | inl nothing ↦ rw (nothing, path_and_version) invalidate-Quiet
  | inr ((path, rest), e) ↦
      rw (e, path_and_version)
        (elim (Option-cases (strtok (codes " ") rest)) [
          | inl nothing ↦ rw (nothing, path_and_version) invalidate-Quiet
          | inr ((version, more), f) ↦
              rw (f, path_and_version)
                (if-Quiet (not (is_http_ver version)) invalidate-Quiet
                  (bind-Quiet (field λ r. unchanged refl refl) (λ _. split_path-Quiet path)))
        ])
]

req_type_data_parser-Quiet : (line : Bytes) → Quiet (req_type_data_parser line)
unfolding req_type_data_parser
req_type_data_parser-Quiet line =
    if-Quiet (ltb (length line) 14) invalidate-Quiet
      (elim (Option-cases (find_type line req_types none)) [
        | inl unknown ↦ rw (unknown, req_type_data_parser) invalidate-Quiet
        | inr (type, e) ↦
            rw (e, req_type_data_parser)
              (bind-Quiet (field λ r. unchanged refl refl)
                (λ _. path_and_version-Quiet (drop (length type + 1) line)))
      ])

line_at-Quiet : (place : ℕ) (line : Bytes) → Quiet (line_at place line)
line_at-Quiet place [] = pure-Quiet tt
line_at-Quiet place (b ∷ s) = http_header_parser-Quiet place (b ∷ s)

each_line-Quiet : (place : ℕ) (lines : List Bytes) → Quiet (each_line place lines)
unfolding each_line
each_line-Quiet place [] = pure-Quiet tt
each_line-Quiet place (line ∷ lines) =
    bind-Quiet (line_at-Quiet place line) (λ _. each_line-Quiet (place + length line + 1) lines)

text_lines-Quiet : (place : ℕ) (text : Bytes) → Quiet (text_lines line_break place text)
unfolding text_lines
text_lines-Quiet place text =
    each_line-Quiet place ((split_on line_break text).0 ∷ (split_on line_break text).1)

request_lines-Quiet : (text : Bytes) → Quiet (request_lines text)
unfolding request_lines token_at
request_lines-Quiet text = elim (Option-cases (strtok line_break text)) [
  | inl nothing ↦ record {
    step = λ r.
        rw (nothing, request_lines, token_at)
          (rw (header_lines-text_lines (length text + 1) (length text) [] r (omega arith))
            ((text_lines-Quiet (length text) []).step r));
  }
  | inr ((line, rest), e) ↦ record {
    step = λ r.
        rw (request_lines-first text line rest r e)
          ((bind-Quiet (req_type_data_parser-Quiet line) (λ _. text_lines-Quiet _ rest)).step r);
  }
]

boundary_from :
    (size : ℕ) (type : CharPtr) (r : HttpRequest)
    → r.content_type ≡ type
    → Step r (λ _. Unit {0}) (set_boundary size r)
unfolding set_boundary
boundary_from size null_char r e = rw (e, set_boundary) (gives (unchanged refl refl, tt))
boundary_from size dangling r e = rw (e, set_boundary) undefined
boundary_from size (points_to place text) r e =
    elim (Option-cases (strstr (codes "boundary=") text)) [
      | inl nothing ↦ rw (e, nothing, set_boundary) (gives (unchanged refl refl, tt))
      | inr ((front, found), f) ↦ elim (Bool-cases (ltb (place + length front + 9) size)) [
        | inl inside ↦ rw (e, f, inside, set_boundary) (gives (unchanged refl refl, tt))
        | inr outside ↦ rw (e, f, outside, set_boundary) (gives (unchanged refl refl, tt))
      ]
    ]

set_boundary-Quiet : (size : ℕ) → Quiet (set_boundary size)
set_boundary-Quiet size = record { step = λ r. boundary_from size r.content_type r refl }

-- The constructor ends for all bytes; a request that it makes has no items, and a buffer of all the
-- bytes.
http_request-Sound :
    (bytes : Bytes) → Ends (λ _ r. Sound (length bytes) r) (http_request (some bytes))
unfolding http_request
http_request-Sound bytes =
    let (head, content) = find_content (c_string bytes) in
    Ends-weaken
      ((bind-Quiet (request_lines-Quiet head) (λ _. set_boundary-Quiet (length bytes))).step
        (record empty_request { buff = some bytes; content = content }))
      λ _ r (same, _). record {
        size_known = same.same_size;
        items_inside = subst (AllInside (length bytes)) (sym same.same_items) tt;
      }

-- A request is made of any bytes and the items of its body are extracted: both end, in undefined
-- behaviour or with items whose pointers are null or lie in the buffer, its zero byte included, or
-- just behind it.
pub http_request-extract_post_data_items :
    (bytes : Bytes)
    → Ends
        (λ _ r. Sound (length bytes) r)
        (and_then (http_request (some bytes)) (λ _. extract_post_data_items))
http_request-extract_post_data_items bytes =
    Ends-bind (http_request-Sound bytes)
      (λ _ r sound. extract_post_data_items-Sound (length bytes) r sound)
