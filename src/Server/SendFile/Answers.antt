-- ===== src/Server/SendFile/Answers.antt =====
-- What is written for a file, for a part of it, and for a file that does not exist.
use network_server.Base.{
  ℕ, ◌+◌, ◌-◌, ◌*◌, ◌%◌, ◌<◌, ◌≤◌, ◌^◌, ◌≡◌, refl, true, false, some, List, [], ◌∷◌, ◌++◌, arith,
  length, length-append, get_elem?, set, ℤ, negsuc, to_size, size_max, Bytes, codes, to_string,
  sub_size, ok,
}
use network_server.Lru.{Ptr}
use network_server.Ranges.{Range}
use network_server.Response.{
  http_10, resp_200_ok, resp_206_partial, resp_416_unsatisfiable_range, sized_response,
  range_response, crlf, make_top_of_header, allocate_buffer, response_length,
  get_type_from_filename,
}
use network_server.Server.{
  http_send_file, http_write, Task, default_task, Iovec, Server, Env, Event, submit_write,
  submit_writev, free, close_pfd, pass_fd, file_size, fill, malloc, update_array,
}
use network_server.Server.Client
use network_server.Server.Tasks.{free_task, sizeof_iovec, with_buffer}
use network_server.Server.Tasks.Fresh.{
  with_task, get_task-ok, modify_task-last, get_task_buff_op-ok,
}
use network_server.Server.SendFile.{
  iovec, current_response, writev_submit_helper, writev_continue, is_using_ranges, read_and_send,
  response_buffer, range_unsatisfiable_error_send,
}

-- The header of a partial answer, but with this length.
abbrev pub partial_header : Range → Bytes → ℕ → ℕ → Bytes
partial_header r content_type content_size len =
    make_top_of_header resp_206_partial http_10
    ++ codes "Content-Type: "
    ++ content_type
    ++ crlf
    ++ codes "Content-Length: "
    ++ to_string len
    ++ crlf
    ++ codes "Accept-Ranges: bytes"
    ++ crlf
    ++ codes "Content-Range: bytes "
    ++ to_string r.start
    ++ codes "-"
    ++ to_string r.end
    ++ codes "/"
    ++ to_string content_size
    ++ crlf
    ++ crlf

-- The header of a partial answer announces one byte more than the body that is written with it, if
-- the range does not run backwards and ends below 2 ^ 64 - 1.
pub current_response-short :
    (env : Env) (t : Task) (s : Server) (r : Range)
    → get_elem? t.write_ranges t.write_ranges_idx ≡ some r
    → r.start ≤ r.end
    → r.end + 1 < 2 ^ 64
    → (body : Iovec) × (current_response env t true s
        ≡ ok
            (
              partial_header r (get_type_from_filename t.filepath) t.buff_length (body.iov_len + 1),
              body,
            )
            s)
      × (body.iov_base ≡ t.buff + r.start)
      × (body.iov_len ≡ r.end - r.start)
unfolding current_response range_response
current_response-short env t s r found order small =
    let len : (r.end + 2 ^ 64 - r.start) % 2 ^ 64 ≡ r.end - r.start = omega arith in
    let announced : ((1 + r.end) % 2 ^ 64 + 2 ^ 64 - r.start) % 2 ^ 64
        ≡ (r.end + 2 ^ 64 - r.start) % 2 ^ 64 + 1 =
      omega arith in
    (iovec (t.buff + r.start) (sub_size r.end r.start), rw (found, announced) refl, refl, len)

-- The calls for a page that was opened in place of a missing file, newest first: it is closed, and
-- the answer is that the range cannot be satisfied.
abbrev pub refusal : Bytes
refusal = sized_response resp_416_unsatisfiable_range http_10 (codes "text/html") 0

abbrev pub refused : Env → ℕ → ℤ → Server → List Event
refused env client fd s =
    let passed = pass_fd fd ∷ file_size fd ∷ s.trace in
    let closed = close_pfd (to_size (env.answer passed)) size_max ∷ passed in
    let made = malloc (length refusal + 1) ∷ closed in
    let buff = env.address made in
    submit_write client buff (length refusal) (length s.task_data + 1)
    ∷ fill buff (refusal ++ 0 ∷ [])
    ∷ made

-- The state after the answer 416 was submitted.
abbrev after_refusal : Env → ℕ → Server → Server
after_refusal env client s =
    let made = malloc (length refusal + 1) ∷ s.trace in
    let buff = env.address made in
    let s' = with_task s (with_buffer http_write buff (length refusal) default_task) in
    record s' {
      trace =
          submit_write client buff (length refusal) (length s.task_data)
          ∷ fill buff (refusal ++ 0 ∷ [])
          ∷ made;
    }

range_unsatisfiable_error_send-ok :
    (env : Env) (client : ℕ) (s : Server)
    → s.task_freed_idxs ≡ []
    → range_unsatisfiable_error_send env client s ≡ ok tt (after_refusal env client s)
unfolding range_unsatisfiable_error_send response_buffer allocate_buffer response_length
    Client.http_write
range_unsatisfiable_error_send-ok env client s fresh =
    let made = malloc (length refusal + 1) ∷ s.trace in
    let buff = env.address made in
    let u = record s { trace = fill buff (refusal ++ 0 ∷ []) ∷ made } in
    rw (get_task_buff_op-ok u fresh http_write buff (length refusal)) refl

-- A page that stands in for a missing file is opened but not sent, while no task id was given back:
-- whatever the file system, the allocator and the event manager answer, the request ends in -1 and
-- the client gets the answer 416.
pub read_and_send-refused :
    (env : Env) (client : ℕ) (path range_str : Bytes) (fd : ℤ) (s : Server)
    → s.task_freed_idxs ≡ []
    → (s' : Server) × (read_and_send env client path range_str true fd s ≡ ok (negsuc 0) s')
      × (s'.trace ≡ refused env client fd s)
      × (s'.cache ≡ s.cache)
unfolding read_and_send free_task
read_and_send-refused env client path range_str fd s fresh =
    let size = file_size fd ∷ s.trace in
    let u = record s { trace = size } in
    let filled = record default_task {
      for_client_num = client;
      buff_length = env.amount size;
      filepath = path;
      op_type = http_send_file;
    } in
    let made = with_task u filled in
    let passed = pass_fd fd ∷ size in
    let v = record made { trace = close_pfd (to_size (env.answer passed)) size_max ∷ passed } in
    let w = after_refusal env client v in
    (
      w,
      rw (get_task-ok u fresh) (
          ground (
            arith,
            modify_task-last u fresh default_task (λ t. record t {
              for_client_num = client;
              buff_length = env.amount size;
              filepath = path;
              op_type = http_send_file;
            }),
            modify_task-last u fresh filled (λ t. record t { write_ranges = [] }),
            range_unsatisfiable_error_send-ok env client v fresh,
          )),
      rw (length-append s.task_data (filled ∷ [])) refl,
      refl,
    )

-- The header of a whole file, in full; the state after the write of the whole file was submitted.
abbrev pub ok_header : (content_type : Bytes) → (content_size : ℕ) → Bytes
ok_header content_type content_size =
    codes "HTTP/1.0 200 OK"
    ++ crlf
    ++ codes "Cache-Control: no-cache, no-store, must-revalidate"
    ++ crlf
    ++ codes "Pragma: no-cache"
    ++ crlf
    ++ codes "Expires: 0"
    ++ crlf
    ++ codes "Connection: close"
    ++ crlf
    ++ codes "Keep-Alive: timeout=0, max=0"
    ++ crlf
    ++ codes "Content-Type: "
    ++ content_type
    ++ crlf
    ++ codes "Content-Length: "
    ++ to_string content_size
    ++ crlf
    ++ crlf

sized_response-ok_header :
    (content_type : Bytes) (content_size : ℕ)
    → sized_response resp_200_ok http_10 content_type content_size
      ≡ ok_header content_type content_size
unfolding sized_response
sized_response-ok_header content_type content_size = refl

abbrev pub full_header : Task → Bytes
full_header t = ok_header (get_type_from_filename t.filepath) t.buff_length

-- The calls that make the header text at an address and the two arrays of vectors, newest first.
abbrev pub header_calls : Bytes → Ptr → List Event → List Event
header_calls text base calls =
    malloc (sizeof_iovec * 2)
    ∷ malloc (sizeof_iovec * 2)
    ∷ fill base (text ++ 0 ∷ [])
    ∷ malloc (length text + 1)
    ∷ calls

abbrev pub submitted : Env → (id client : ℕ) → Task → Server → Server
submitted env id client t s =
    let text = full_header t in
    let made = malloc (length text + 1) ∷ s.trace in
    let resp_data = env.address made in
    let calls = malloc (sizeof_iovec * 2) ∷ fill resp_data (text ++ 0 ∷ []) ∷ made in
    let vecs = env.address calls in
    let calls' = malloc (sizeof_iovec * 2) ∷ calls in
    let copy = env.address calls' in
    let content = iovec resp_data (length text) ∷ iovec t.buff t.buff_length ∷ [] in
    record s {
      task_data = set s.task_data id (record t {
        write_ranges_idx = t.write_ranges_idx + 1;
        buff = vecs;
        iovs = copy;
        num_iovecs = 2;
      });
      arrays = update_array (update_array s.arrays vecs content) copy content;
      trace = submit_writev client copy 2 id ∷ calls';
    }

-- Without ranges the header announces the length of the file, and one request is submitted, of the
-- header and the whole file.
pub writev_submit_helper-full :
    (env : Env) (id client : ℕ) (s : Server) (t : Task)
    → get_elem? s.task_data id ≡ some t
    → writev_submit_helper env id client false s
      ≡ ok (env.answer (submitted env id client t s).trace) (submitted env id client t s)
unfolding writev_submit_helper current_response response_buffer allocate_buffer response_length
writev_submit_helper-full env id client s t found =
    ground
      (arith, found, sized_response-ok_header (get_type_from_filename t.filepath) t.buff_length)

-- The next range of a file, after the first one was written. `task.buff` is the array of vectors by
-- now, and the body of the answer is taken from it, not from the file.
abbrev pub continued : Env → (pfd id : ℕ) → Task → Range → Iovec → Server → Server
continued env pfd id t r header s =
    let text =
      range_response resp_206_partial http_10 r (get_type_from_filename t.filepath) t.buff_length in
    let made = malloc (length text + 1) ∷ s.trace in
    let resp_data = env.address made in
    let calls =
      malloc (sizeof_iovec * 2)
      ∷ free t.iovs
      ∷ free header.iov_base
      ∷ fill resp_data (text ++ 0 ∷ [])
      ∷ made in
    let copy = env.address calls in
    let content =
      iovec resp_data (length text) ∷ iovec (t.buff + r.start) (sub_size r.end r.start) ∷ [] in
    record s {
      task_data =
          set s.task_data id (record t { write_ranges_idx = t.write_ranges_idx + 1; iovs = copy });
      arrays = update_array (update_array s.arrays t.buff content) copy content;
      trace = submit_writev pfd copy t.num_iovecs id ∷ calls;
    }

-- After a range was written and while there is another, the old header and the old copy are freed
-- and one request is submitted for the next range, whose body is read from the array of vectors.
pub writev_continue-next :
    (env : Env) (pfd id : ℕ) (s : Server) (t : Task) (r : Range) (header : Iovec)
    (rest : List Iovec)
    → get_elem? s.task_data id ≡ some t
    → is_using_ranges t ≡ true
    → get_elem? t.write_ranges t.write_ranges_idx ≡ some r
    → s.arrays t.buff ≡ header ∷ rest
    → writev_continue env pfd id s ≡ ok tt (continued env pfd id t r header s)
unfolding writev_continue current_response response_buffer allocate_buffer response_length
writev_continue-next env pfd id s t r header rest found more next original =
    ground (arith, found, more, next, original)
