-- ===== src/Tests/Posts.antt =====
-- POST requests in the buffer of a connection.
use network_server.Base.{
  ◌+◌, ◌-◌, ◌^◌, ◌≡◌, refl, true, [], ◌∷◌, ◌++◌, ok, length, Bytes, codes, bytes_eq, starts_with,
  some, atoi, skip_spaces, signed_atoi, positive_atoi, negative_atoi, leading_digits,
}
use network_server.CString.{skip_delims, span_token, strtok, strchr, strstr, c_string}
use network_server.Request.{
  points_to, HttpRequest, empty_request, find_type, split_path, path_and_version,
  req_type_data_parser, assign_header, value_after_space, token_at, http_header_parser,
}
use network_server.Request.Build.{
  find_content, header_lines, request_lines, set_boundary, http_request,
}
use network_server.Server.{OperationType, Task, default_task, Server, read_size}
use network_server.Server.Reads.Post.{Posted}
use network_server.Tests.World.{server}

-- A connection that waits for a request.
abbrev pub waiting : Task
waiting = record default_task {
  op_type = OperationType.network_read;
  buff = 600;
  buff_length = read_size;
}

abbrev pub waiter : Server
waiter = server (waiting ∷ []) (λ p. [])

abbrev break : Bytes
break = 13 ∷ 10 ∷ []

-- A POST request with a header of 39 bytes and a body of four, for a length.
abbrev post_with : Bytes → Bytes → Bytes
post_with length_text body =
    codes "POST /a HTTP/1.1"
    ++ (break ++ (codes "Content-Length: " ++ (length_text ++ (break ++ (break ++ body)))))

abbrev pub post_text : Bytes → Bytes
post_text length_text = post_with length_text (codes "body")

abbrev post_request_with : Bytes → Bytes → HttpRequest
post_request_with length_text body = record empty_request {
  req_type = codes "POST";
  path = codes "/a";
  subdirs = codes "a" ∷ [];
  content_length = points_to 34 length_text;
  content = points_to (38 + length length_text) body;
  buff = some (post_with length_text body);
}

abbrev pub post_request : Bytes → HttpRequest
post_request length_text = post_request_with length_text (codes "body")

pub post_received_nine :
    http_request (some (post_text (codes "9"))) ≡ ok tt (post_request (codes "9"))
unfolding http_request find_content request_lines header_lines set_boundary req_type_data_parser
    http_header_parser token_at value_after_space assign_header path_and_version split_path
    find_type strtok skip_delims span_token strchr strstr c_string bytes_eq starts_with
post_received_nine = refl

pub post_received_four :
    http_request (some (post_text (codes "4"))) ≡ ok tt (post_request (codes "4"))
unfolding http_request find_content request_lines header_lines set_boundary req_type_data_parser
    http_header_parser token_at value_after_space assign_header path_and_version split_path
    find_type strtok skip_delims span_token strchr strstr c_string bytes_eq starts_with
post_received_four = refl

pub post_received_negative :
    http_request (some (post_text (codes "-2"))) ≡ ok tt (post_request (codes "-2"))
unfolding http_request find_content request_lines header_lines set_boundary req_type_data_parser
    http_header_parser token_at value_after_space assign_header path_and_version split_path
    find_type strtok skip_delims span_token strchr strstr c_string bytes_eq starts_with
post_received_negative = refl

is_posted : bytes_eq (codes "POST") (codes "POST") ≡ true
unfolding bytes_eq
is_posted = refl

read_nine : atoi (codes "9") ≡ 9
unfolding atoi skip_spaces signed_atoi positive_atoi leading_digits
read_nine = refl

read_four : atoi (codes "4") ≡ 4
unfolding atoi skip_spaces signed_atoi positive_atoi leading_digits
read_four = refl

read_negative : atoi (codes "-2") ≡ 2 ^ 64 - 2
unfolding atoi skip_spaces signed_atoi negative_atoi leading_digits
read_negative = refl

pub nine-Posted : Posted (post_request (codes "9")) 39 9
nine-Posted = record {
  is_post = is_posted;
  text = codes "9";
  at_text = 34;
  length_given = refl;
  length_read = read_nine;
  body = codes "body";
  body_found = refl;
}

pub four-Posted : Posted (post_request (codes "4")) 39 4
four-Posted = record {
  is_post = is_posted;
  text = codes "4";
  at_text = 34;
  length_given = refl;
  length_read = read_four;
  body = codes "body";
  body_found = refl;
}

pub negative-Posted : Posted (post_request (codes "-2")) 40 (2 ^ 64 - 2)
negative-Posted = record {
  is_post = is_posted;
  text = codes "-2";
  at_text = 34;
  length_given = refl;
  length_read = read_negative;
  body = codes "body";
  body_found = refl;
}

-- The whole of the first of them.
abbrev pub whole_text : Bytes
whole_text = post_with (codes "9") (codes "body12345")

abbrev pub whole_request : HttpRequest
whole_request = post_request_with (codes "9") (codes "body12345")

pub whole_received : http_request (some whole_text) ≡ ok tt whole_request
unfolding http_request find_content request_lines header_lines set_boundary req_type_data_parser
    http_header_parser token_at value_after_space assign_header path_and_version split_path
    find_type strtok skip_delims span_token strchr strstr c_string bytes_eq starts_with
whole_received = refl

pub whole-Posted : Posted whole_request 39 9
whole-Posted = record {
  is_post = is_posted;
  text = codes "9";
  at_text = 34;
  length_given = refl;
  length_read = read_nine;
  body = codes "body12345";
  body_found = refl;
}
