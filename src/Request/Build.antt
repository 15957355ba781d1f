-- ===== src/Request/Build.antt =====
-- src/http_request.cpp: the constructor and the destructor of `http_request`.
use network_server.Base.{
  ℕ, zero, suc, ◌+◌, Option, none, some, [], ◌∷◌, ◌++◌, ltb, if◌then◌else◌, Bytes, codes, length,
  drop, ok, fault, out_of_fuel, pure, modify, ◌>>◌, Run,
}
use network_server.CString.{strstr, c_string}
use network_server.Request.{
  CharPtr, null_char, points_to, dangling, HttpRequest, empty_request, RequestCmd,
  req_type_data_parser, http_header_parser, token_at,
}

-- `CRLF`.
abbrev pub line_break : Bytes
line_break = 13 ∷ 10 ∷ []

-- `double_CRLF`.
abbrev pub double_break : Bytes
double_break = 13 ∷ 10 ∷ 13 ∷ 10 ∷ []

-- The text of the head, and the pointer to the content. An empty line in the first four bytes does
-- not count.
unfoldable pub find_content : Bytes → Bytes × CharPtr
find_content text = elim (strstr double_break text) [
  | none ↦ (text, null_char)
  | some (front, found) ↦
      if ltb (length double_break) (length front)
      then (front, points_to (length front + length double_break) (drop 4 found))
      else (text, null_char)
]

-- `while ((tok_ptr = strtok_r(buff_ptr, "\r\n", &save_ptr)) != nullptr) http_header_parser(tok_ptr);`
unfoldable pub header_lines : ℕ → ℕ → Bytes → RequestCmd (Unit {0})
header_lines zero place text = λ r. out_of_fuel
header_lines (suc fuel) place text = elim (token_at line_break place text) [
  | none ↦ pure tt
  | some (at_line, (line, (after, rest))) ↦ do
    http_header_parser at_line line
    header_lines fuel after rest
]

unfoldable pub request_lines : Bytes → RequestCmd (Unit {0})
unfolding header_lines
request_lines text = elim (token_at line_break 0 text) [
  | none ↦ header_lines (length text + 1) (length text) []
  | some (_, (line, (after, rest))) ↦ do
    req_type_data_parser line
    header_lines (length text + 1) after rest
]

-- The boundary runs from behind `boundary=` to the end of the header, spaces included.
unfoldable pub set_boundary : ℕ → RequestCmd (Unit {0})
set_boundary size r = elim r.content_type [
  | null_char ↦ ok tt r
  | dangling ↦ fault
  | points_to place text ↦ elim (strstr (codes "boundary=") text) [
    | none ↦ ok tt r
    | some (front, found) ↦
        if ltb (place + length front + length (codes "boundary=")) size
        then (let boundary = codes "--" ++ drop 9 found in
            ok tt (record r {
              boundary_str = boundary ++ line_break;
              boundary_last_str = boundary ++ codes "--";
            }))
        else ok tt r
  ]
]

-- The constructor: `bytes` are the `length` bytes at the address, or the address is null. The copy
-- has a zero byte behind them.
unfoldable pub http_request : Option Bytes → Run HttpRequest (Unit {0})
unfolding find_content request_lines set_boundary
http_request none = ok tt empty_request
http_request (some bytes) =
    let (head, content) = find_content (c_string bytes) in
    (do request_lines head; set_boundary (length bytes))
      (record empty_request { buff = some bytes; content = content })

unfoldable pub destroy_request : RequestCmd (Unit {0})
destroy_request = modify λ r. record r { buff = none }
