-- ===== src/Request/RoundTrip.antt =====
-- A request, printed and parsed: src/http_request.cpp.
use network_server.Base.{
  ℕ, ◌+◌, ◌≤◌, ◌<◌, ◌≡◌, refl, ap, ◌∙◌, true, false, some, List, [], ◌∷◌, ◌++◌, arith, length,
  length-append, Bytes, codes, ltb, ok, and_then, and_then-next,
}
use network_server.CString.{mem_byte, c_string}
use network_server.CString.Tokens.{Plain, Plain-append, Plain-weaken}
use network_server.CString.Search.{c_string-Plain}
use network_server.Request.{null_char, points_to, HttpRequest, empty_request, req_type_data_parser}
use network_server.Request.Build.{
  line_break, double_break, find_content, request_lines, set_boundary, http_request,
}
use network_server.Request.Split.{pieces}
use network_server.Request.Lines.{text_lines, request_lines-first}
use network_server.Request.RequestLine.{
  Method, Version, method_name, request_line, served_path, req_type_data_parser-request_line, ends,
  request_line-Plain, length-request_line, PathPart,
}
use network_server.Request.Fields.{
  last_value, with_headers, with_boundary, assign_headers-set_boundary,
}
use network_server.Request.Printed.{
  Header, AllPrintable, header_text, assign_headers, line-Behind, header_text-assign_headers,
  strstr-header_text, header_text-Plain,
}

-- A request as a client prints it.
abbrev pub print_request : Method → Bytes → Version → List Header → Bytes → Bytes
print_request m path v hs body = request_line m path v ++ (header_text hs ++ (double_break ++ body))

module _ (m : Method) (path : Bytes) (v : Version) (hs : List Header) (body : Bytes)
    (some_path : 1 ≤ length path) (path_part : PathPart path) (printable : AllPrintable hs)
    (text : Plain (0 ∷ []) body) where
  abbrev line : Bytes
  line = request_line m path v

  request-Plain :
      (ds : Bytes) → ((b : ℕ) → mem_byte b ends ≡ false → mem_byte b ds ≡ false) → Plain ds line
  request-Plain ds fewer = Plain-weaken ends ds line fewer (request_line-Plain m path v path_part)

  null_free : c_string (print_request m path v hs body) ≡ print_request m path v hs body
  null_free = c_string-Plain (print_request m path v hs body) (
      Plain-append (0 ∷ []) line _ (request-Plain (0 ∷ []) (λ b out. ground arith)) (
        Plain-append (0 ∷ []) (header_text hs) (double_break ++ body)
          (header_text-Plain hs printable) (refl, (refl, (refl, (refl, text))))))

  longer : ltb 4 (length (line ++ header_text hs)) ≡ true
  longer = ground (arith, length-append line (header_text hs), length-request_line m path v)

  content_found :
      find_content (print_request m path v hs body)
      ≡ (line ++ header_text hs, points_to (length (line ++ header_text hs) + 4) body)
  unfolding find_content
  content_found =
      rw
        (
          strstr-header_text hs line body printable
              (request-Plain (13 ∷ []) (λ b out. ground arith)),
          longer,
          find_content,
        )
        refl

  behind_line :
      (r : HttpRequest)
      → text_lines line_break (0 + length line) (header_text hs) r
        ≡ assign_headers (length line) hs r
  behind_line r =
      ap (λ p. text_lines line_break p (header_text hs) r) (omega arith)
      ∙ header_text-assign_headers (length line) hs r printable

  lines_parsed :
      (r : HttpRequest)
      → request_lines (line ++ header_text hs) r
        ≡ and_then (req_type_data_parser line r) (λ _. assign_headers (length line) hs)
  lines_parsed r =
      let some_line : 1 ≤ length line = omega (arith, length-request_line m path v) in
      let (rest, behind) =
        line-Behind line hs some_line (request-Plain line_break (λ b out. ground arith)) in
      request_lines-first (line ++ header_text hs) line rest r behind.taken
      ∙ and_then-next _ (λ _ q. behind.same 0 q ∙ behind_line q)

  text_fits : length line + length (header_text hs) < length (print_request m path v hs body)
  text_fits = omega (
    arith,
    length-append line (header_text hs ++ (double_break ++ body)),
    length-append (header_text hs) (double_break ++ body),
  )

  -- A printed request is parsed back, without an error: the method, the path and its parts, the
  -- value and place of the last header of each name that the object has a field for, and the place
  -- and text of the body. The boundary is all that comes behind `boundary=` in the type of the
  -- content. The path, the keys and the values are not empty; the path has no space, the keys and
  -- values no colon, and none of them a line break or a null byte, nor the body a null byte.
  pub http_request-print_request :
      http_request (some (print_request m path v hs body))
      ≡ ok tt (
          with_boundary (last_value (codes "Content-Type") (length line) hs null_char) (
            with_headers (length line) hs (record empty_request {
              req_type = method_name m;
              path = served_path path;
              subdirs = pieces (codes "/") path;
              content = points_to (length (line ++ header_text hs) + 4) body;
              buff = some (print_request m path v hs body);
            })))
  unfolding http_request
  http_request-print_request =
      let received = record empty_request {
        content = points_to (length (line ++ header_text hs) + 4) body;
        buff = some (print_request m path v hs body);
      } in
      rw (null_free, content_found, http_request)
        (ap (λ run. and_then run (λ _. set_boundary (length (print_request m path v hs body))))
            (lines_parsed received
              ∙ ap (λ run. and_then run (λ _. assign_headers (length line) hs))
                  (req_type_data_parser-request_line m path v received some_path (
                    Plain-weaken (32 ∷ 13 ∷ 10 ∷ 0 ∷ []) (codes " ") path (λ b out. ground arith)
                      path_part)))
          ∙ assign_headers-set_boundary (length (print_request m path v hs body)) (length line) hs
              (record received {
                req_type = method_name m;
                path = served_path path;
                subdirs = pieces (codes "/") path;
              })
              text_fits tt)
