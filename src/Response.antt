-- ===== src/Response.antt =====
-- header/http_response.hpp and src/http_response.cpp: response headers as byte strings.
use network_server.Base.{
  ℕ, Bool, false, [], ◌∷◌, ◌++◌, Bytes, codes, bytes_eq, if◌then◌else◌, add_size, sub_size,
  to_string, length, drop, ◌-◌, ltb,
}
use network_server.Ranges.{Range}

pub data HttpVer : Type 0 where
  http_10 http_11 : HttpVer

pub data RespCode : Type 0 where
  resp_101 resp_200_ok resp_206_partial resp_404 resp_416_unsatisfiable_range resp_502 resp_505 :
      RespCode

abbrev pub crlf : Bytes
crlf = 13 ∷ 10 ∷ []

unfoldable pub version_text : HttpVer → Bytes
version_text http_10 = codes "HTTP/1.0"
version_text http_11 = codes "HTTP/1.1"

unfoldable pub status_text : RespCode → Bytes
status_text resp_101 = codes "Switching Protocols"
status_text resp_200_ok = codes "200 OK"
status_text resp_206_partial = codes "206 Partial Content"
status_text resp_404 = codes "Not Found"
status_text resp_416_unsatisfiable_range = codes "416 Range Not Satisfiable"
status_text resp_502 = codes "Bad Gateway"
status_text resp_505 = codes "HTTP Version not supported"

unfoldable pub header_start_line : RespCode → HttpVer → Bytes
unfolding version_text status_text
header_start_line code ver = version_text ver ++ codes " " ++ status_text code

-- A header line and its end.
abbrev pub line : Bytes → Bytes
line text = text ++ crlf

-- The lines shared by the cases that fall through.
unfoldable pub connection_lines : Bytes
connection_lines = line (codes "Connection: close") ++ line (codes "Keep-Alive: timeout=0, max=0")

-- The lines of each case of the switch, with its fall-through.
unfoldable pub code_lines : RespCode → Bytes
unfolding connection_lines
code_lines resp_101 = line (codes "Upgrade: websocket") ++ line (codes "Connection: Upgrade")
code_lines resp_200_ok =
    line (codes "Cache-Control: no-cache, no-store, must-revalidate")
    ++ line (codes "Pragma: no-cache")
    ++ line (codes "Expires: 0")
    ++ connection_lines
code_lines resp_404 = connection_lines
code_lines resp_206_partial = []
code_lines resp_416_unsatisfiable_range = []
code_lines resp_502 = []
code_lines resp_505 = []

unfoldable pub make_top_of_header : RespCode → HttpVer → Bytes
unfolding header_start_line code_lines
make_top_of_header code ver = line (header_start_line code ver) ++ code_lines code

abbrev pub websocket_magic_key : Bytes
websocket_magic_key = codes "258EAFA5-E914-47DA-95CA-C5AB0DC85B11"

-- `sha1` is the digest of the vendored library, as a C string; `b64` is the encoder.
unfoldable pub get_accept_header_value : (sha1 b64 : Bytes → Bytes) → Bytes → Bytes
get_accept_header_value sha1 b64 key = b64 (sha1 (key ++ websocket_magic_key))

-- The four constructors: each value is the member `response_data`.
unfoldable pub websocket_response : (sha1 b64 : Bytes → Bytes) → RespCode → HttpVer → Bytes → Bytes
unfolding make_top_of_header get_accept_header_value
websocket_response sha1 b64 code ver key =
    make_top_of_header code ver
    ++ codes "Sec-WebSocket-Accept: "
    ++ get_accept_header_value sha1 b64 key
    ++ crlf
    ++ crlf

unfoldable pub content_response : RespCode → HttpVer → Bytes → Bytes → Bytes
unfolding make_top_of_header
content_response code ver content_type content =
    make_top_of_header code ver
    ++ codes "Content-Type: "
    ++ content_type
    ++ crlf
    ++ to_string (length content)
    ++ crlf
    ++ crlf
    ++ content

unfoldable pub sized_response : RespCode → HttpVer → Bytes → ℕ → Bytes
unfolding make_top_of_header
sized_response code ver content_type content_size =
    make_top_of_header code ver
    ++ codes "Content-Type: "
    ++ content_type
    ++ crlf
    ++ codes "Content-Length: "
    ++ to_string content_size
    ++ crlf
    ++ crlf

unfoldable pub range_response : RespCode → HttpVer → Range → Bytes → ℕ → Bytes
unfolding make_top_of_header
range_response code ver r content_type content_size =
    make_top_of_header code ver
    ++ codes "Content-Type: "
    ++ content_type
    ++ crlf
    ++ codes "Content-Length: "
    ++ to_string (sub_size (add_size 1 r.end) r.start)
    ++ crlf
    ++ codes "Accept-Ranges: bytes"
    ++ crlf
    ++ codes "Content-Range: bytes "
    ++ to_string r.start
    ++ codes "-"
    ++ to_string r.end
    ++ codes "/"
    ++ to_string content_size
    ++ crlf
    ++ crlf

-- The bytes of `allocate_buffer`: the text and its terminating null byte.
unfoldable pub allocate_buffer : Bytes → Bytes
allocate_buffer response_data = response_data ++ 0 ∷ []

unfoldable pub response_length : Bytes → ℕ
response_length response_data = length response_data

unfoldable pub ends_with : Bytes → Bytes → Bool
ends_with suffix s =
    if ltb (length s) (length suffix)
    then false
    else bytes_eq (drop (length s - length suffix) s) suffix

unfoldable pub get_type_from_filename : Bytes → Bytes
unfolding ends_with
get_type_from_filename filename =
    if ends_with (codes ".mp4") filename
    then codes "video/mp4"
    else if ends_with (codes ".jpg") filename
    then codes "image/jpg"
    else if ends_with (codes ".gif") filename
    then codes "image/gif"
    else codes "text/html"
