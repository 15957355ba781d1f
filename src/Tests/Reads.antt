-- ===== src/Tests/Reads.antt =====
-- Reads of files and requests at concrete inputs.
use network_server.Base.{
  ◌+◌, ◌-◌, ◌^◌, ◌≡◌, ◌<◌, refl, false, [], ◌∷◌, arith, pos, ok, Bytes, codes, bytes_eq,
  starts_with, some, get_elem?,
}
use network_server.CString.{skip_delims, span_token, strtok, strchr, strstr, c_string}
use network_server.Request.{
  HttpRequest, empty_request, find_type, split_path, path_and_version, req_type_data_parser,
  assign_header, value_after_space, token_at, http_header_parser,
}
use network_server.Request.Build.{
  find_content, header_lines, request_lines, set_boundary, http_request,
}
use network_server.Server.{
  OperationType, Task, default_task, Server, Env, free, close_pfd, submit_read, copy, malloc,
  http_read_done,
}
use network_server.Server.Callbacks.WriteProgress.{told}
use network_server.Server.Reads.{read_callback, read_complete}
use network_server.Server.Reads.Parts.{run_reads, read_requests, run_reads-read_complete}
use network_server.Server.Reads.Network.{read_again, read_callback-continues, read_callback-refuses}
use network_server.Server.Reads.Post.{another_read}
use network_server.Server.Reads.Body.{
  body_awaited, read_callback-body_awaited, read_callback-two_reads, read_callback-overflow,
}
use network_server.Tests.World.{world, world_with, server}
use network_server.Tests.Posts.{
  waiting, waiter, post_text, post_request, post_received_nine, post_received_four,
  post_received_negative, nine-Posted, four-Posted, negative-Posted,
}

-- A file of ten bytes, four of them read.
abbrev filling : Task
filling = record default_task {
  op_type = OperationType.raw_read;
  buff = 600;
  buff_length = 10;
  progress = 4;
}

abbrev filler : Server
filler = server (filling ∷ []) (λ p. [])

run_reads-read_complete_example :
    (s' : Server) × (run_reads world 0 7 0 604 6 (1 ∷ 3 ∷ 2 ∷ []) filler
      ≡ read_complete world OperationType.raw_read 7 0 600 10 s')
    × (s'.trace ≡ read_requests 600 10 7 0 4 (1 ∷ 3 ∷ 2 ∷ []) [])
    × ((p : _) × (get_elem? s'.task_data 0 ≡ some (record filling { progress = p })))
    × (s'.task_freed_idxs ≡ [])
    × (s'.cache ≡ filler.cache)
run_reads-read_complete_example =
    run_reads-read_complete world 0 7 0 604 6 1 (3 ∷ 2 ∷ []) filler filling refl refl (omega arith)
      (omega arith, (omega arith, (omega arith, tt))) (omega arith)

abbrev pub get_text : Bytes
get_text = codes "GET / HTTP/1.1"

abbrev pub get_request : HttpRequest
get_request = record empty_request {
  req_type = codes "GET";
  path = codes "index.html";
  buff = some get_text;
}

pub get_received : http_request (some get_text) ≡ ok tt get_request
unfolding http_request find_content request_lines header_lines set_boundary req_type_data_parser
    http_header_parser token_at value_after_space assign_header path_and_version split_path
    find_type strtok skip_delims span_token strchr strstr c_string bytes_eq starts_with
get_received = refl

pub not_post : bytes_eq (codes "GET") (codes "POST") ≡ false
unfolding bytes_eq
not_post = refl

read_callback-continues_example :
    read_callback (world_with get_text) 0 7 0 600 4096 (pos 14) waiter
    ≡ ok tt (
        read_again 7 0 waiting
          (told (world_with get_text) (http_read_done get_request 7 false) waiter))
read_callback-continues_example =
    read_callback-continues (world_with get_text) 0 7 0 600 4096 14 waiter waiting get_request refl
      refl (omega arith) (omega arith) (refl, get_received) waiting not_post refl refl

abbrev bad_text : Bytes
bad_text = codes "GOT"

abbrev bad_request : HttpRequest
bad_request = record empty_request { buff = some bad_text; valid_req = false }

bad_received : http_request (some bad_text) ≡ ok tt bad_request
unfolding http_request find_content request_lines header_lines set_boundary req_type_data_parser
    http_header_parser token_at value_after_space assign_header path_and_version split_path
    find_type strtok skip_delims span_token strchr strstr c_string bytes_eq starts_with
bad_received = refl

none_is_post : bytes_eq [] (codes "POST") ≡ false
unfolding bytes_eq
none_is_post = refl

read_callback-refuses_example :
    read_callback (world_with bad_text) 0 7 0 600 4096 (pos 3) waiter
    ≡ ok tt (record waiter { trace = free 600 ∷ close_pfd 7 0 ∷ [] })
read_callback-refuses_example =
    read_callback-refuses (world_with bad_text) 0 7 0 600 4096 3 waiter waiting bad_request refl
      refl (omega arith) (omega arith) (refl, bad_received) none_is_post refl

read_callback-body_awaited_example :
    read_callback (world_with (post_text (codes "9"))) 0 7 0 600 4096 (pos 43) waiter
    ≡ ok tt (body_awaited (world_with (post_text (codes "9"))) 7 600 43 39 9 waiting waiter)
read_callback-body_awaited_example =
    read_callback-body_awaited (world_with (post_text (codes "9"))) 0 7 0 600 4096 43 39 9 waiter
      waiting (post_request (codes "9")) refl refl (omega arith) refl (refl, post_received_nine)
      nine-Posted (omega arith) (omega arith) (omega arith) (omega arith) refl

abbrev posting : Env
posting = world_with (post_text (codes "4"))

read_callback-two_reads_example :
    read_callback posting 0 7 0 600 4096 (pos 43) waiter
    ≡ ok tt (
        read_again 7 0 waiting (
          told posting
            (http_read_done (post_request (codes "4")) 7 false)
            (another_read posting 7 waiter)))
read_callback-two_reads_example =
    read_callback-two_reads posting 0 7 0 600 4096 43 39 4 waiter waiting (post_request (codes "4"))
      refl refl (omega arith) refl (refl, post_received_four) four-Posted (omega arith)
      (omega arith) waiting (omega arith) refl refl refl refl

read_callback-overflow_example :
    (u : Server) × (read_callback
        (world_with (post_text (codes "-2")))
        0
        7
        0
        600
        4096
        (pos 44)
        waiter
      ≡ ok tt u)
    × (u.trace
        ≡ free 600
          ∷ submit_read 7 (1001 + 44) (2 ^ 64 + 38 - 44) 1
          ∷ copy 1001 600 44
          ∷ malloc 38
          ∷ [])
    × (38 < 44)
read_callback-overflow_example =
    read_callback-overflow (world_with (post_text (codes "-2"))) 0 7 0 600 4096 44 40 (2 ^ 64 - 2)
      waiter waiting (post_request (codes "-2")) refl refl (omega arith) refl
      (refl, post_received_negative) negative-Posted (omega arith) (omega arith) 2 (omega arith)
      (omega arith) refl refl
