-- ===== src/Tests/Requests.antt =====
-- The parser of requests on small inputs.
use network_server.Base.{
  ◌≡◌, refl, Bool, true, false, some, List, [], ◌∷◌, ◌++◌, arith, codes, Bytes, bytes_eq,
  starts_with, Run, ok, fault,
}
use network_server.CString.{skip_delims, span_token, strtok, strchr, strstr, c_string}
use network_server.Request.Fields.{last_value, with_headers, with_boundary}
use network_server.Request.{
  null_char, CharPtr, null_char, points_to, HttpRequest, empty_request, find_type, split_path,
  path_and_version, req_type_data_parser, assign_header, value_after_space, token_at,
  http_header_parser,
}
use network_server.Request.Build.{
  line_break, find_content, header_lines, request_lines, set_boundary, http_request,
}
use network_server.Request.Split.{pieces, split_path_lem}
use network_server.Request.Lines.{text_lines, header_lines-text_lines}
use network_server.Request.Headers.{header_line, http_header_parser-second_colon}
use network_server.Request.Printed.{Header}
use network_server.Request.RequestLine.{get, http11, served_path}
use network_server.Request.RoundTrip.{print_request, http_request-print_request}

-- The fields that a run leaves, if it ends.
abbrev summary : Run HttpRequest (Unit {0}) → List Bytes × (CharPtr × (CharPtr × Bool))
summary (ok _ r) =
    (r.req_type ∷ r.path ∷ r.boundary_str ∷ r.subdirs, (r.host, (r.content, r.valid_req)))
summary _ = ([], (null_char, (null_char, false)))

abbrev break : Bytes
break = 13 ∷ 10 ∷ []

-- The port of the host is lost, and a short body is found.
posted :
    summary (
      http_request (
        some (
          codes "POST /a/b HTTP/1.1"
          ++ (break
              ++ (codes "Host: h:40"
                  ++ (break
                      ++ (codes "Content-Type: form; boundary=xy"
                          ++ (break ++ (break ++ codes "body")))))))))
    ≡ (
      codes "POST" ∷ codes "/a/b" ∷ (codes "--xy" ++ break) ∷ codes "a" ∷ codes "b" ∷ [],
      (points_to 26 (codes "h"), (points_to 67 (codes "body"), true)),
    )
unfolding http_request find_content request_lines header_lines set_boundary req_type_data_parser
    http_header_parser token_at value_after_space assign_header path_and_version split_path
    find_type strtok skip_delims span_token strchr strstr c_string bytes_eq starts_with
posted = refl

-- A Range header without a space is undefined behaviour: the string is built from an address that
-- no object has.
no_space :
    http_request (some (codes "GET / HTTP/1.1" ++ (break ++ (codes "Range:bytes=0-" ++ break))))
    ≡ fault
unfolding http_request find_content request_lines header_lines set_boundary req_type_data_parser
    http_header_parser token_at value_after_space assign_header path_and_version split_path
    find_type strtok skip_delims span_token strchr strstr c_string bytes_eq starts_with
no_space = refl

abbrev host_header : Header
host_header = record { key = codes "Host"; value = codes "a b" }

http_request-print_request_example :
    http_request (some (print_request get (codes "/x") http11 (host_header ∷ []) (codes "hi")))
    ≡ ok tt (
        with_boundary (last_value (codes "Content-Type") 15 (host_header ∷ []) null_char) (
          with_headers 15 (host_header ∷ []) (record empty_request {
            req_type = codes "GET";
            path = served_path (codes "/x");
            subdirs = pieces (codes "/") (codes "/x");
            content = points_to 30 (codes "hi");
            buff = some (print_request get (codes "/x") http11 (host_header ∷ []) (codes "hi"));
          })))
http_request-print_request_example =
    http_request-print_request get (codes "/x") http11 (host_header ∷ []) (codes "hi") (omega arith)
      (refl, (refl, tt))
      (
        record {
          some_key = omega arith;
          some_value = omega arith;
          key_part = (refl, (refl, (refl, (refl, tt))));
          value_part = (refl, (refl, (refl, tt)));
        },
        tt,
      )
      (refl, (refl, tt))

split_path_lem_example :
    split_path 5 (codes "/a/b") empty_request
    ≡ ok tt (record empty_request { subdirs = pieces (codes "/") (codes "/a/b") })
split_path_lem_example = split_path_lem (codes "/a/b") empty_request

abbrev two_lines : Bytes
two_lines = codes "Host: a" ++ (break ++ codes "DNT: 1")

header_lines-text_lines_example :
    header_lines 20 16 two_lines empty_request ≡ text_lines line_break 16 two_lines empty_request
header_lines-text_lines_example =
    header_lines-text_lines 20 16 two_lines empty_request (omega arith)

http_header_parser-second_colon_example :
    http_header_parser 20 (header_line (codes "Host") (codes "h") ++ codes ":40") empty_request
    ≡ http_header_parser 20 (header_line (codes "Host") (codes "h")) empty_request
http_header_parser-second_colon_example =
    http_header_parser-second_colon 20 (codes "Host") (codes "h") (codes "40") empty_request
      (omega arith) (omega arith) (refl, (refl, (refl, (refl, tt)))) (refl, tt)
