-- ===== src/Server/Reads/Post.antt =====
-- The body of a POST request: src/http.cpp compares what came with the length that the header gives.
use network_server.Base.{
  ℕ, ◌+◌, ◌<◌, ◌≡◌, refl, true, false, none, some, [], ◌∷◌, ◌++◌, arith, length, Bytes, codes,
  bytes_eq, atoi, ◌==◌, ltb, add_size, sub_size, ok,
}
use network_server.Lru.{Ptr, null}
use network_server.Request.{points_to, HttpRequest}
use network_server.Server.{
  OperationType, Task, default_task, Server, Env, read_size, submit_read, copy, malloc,
  http_read_done,
}
use network_server.Server.Tasks.Fresh.{with_buffer-real, get_task_buff_op-ok, modify_task-last}
use network_server.Server.Requests.{
  read_rest, read_normal, post_content, post_request, http_response_method,
}
use network_server.Server.Callbacks.WriteProgress.{told}
use network_server.Server.Reads.Network.{Received, parse_request-Received}

-- The task that reads the rest of a body, into a buffer of `total` bytes of which `size` are there.
abbrev pub body_task : (buffer total size : ℕ) → Task
body_task buffer total size = record default_task {
  op_type = OperationType.http_post_read;
  buff = buffer;
  buff_length = total;
  progress = size;
}

-- The request is a POST whose header gives a length, and its body begins at `place`.
pub record Posted (req : HttpRequest) (place c : ℕ) : Type 0 where
  pub is_post : bytes_eq req.req_type (codes "POST") ≡ true
  pub text : Bytes
  pub at_text : ℕ
  pub length_given : req.content_length ≡ points_to at_text text
  pub length_read : atoi text ≡ c
  pub body : Bytes
  pub body_found : req.content ≡ points_to place body

-- The size of the buffer for the whole request, and its address.
abbrev pub whole_size : (size place c : ℕ) → ℕ
whole_size size place c = add_size (sub_size size (sub_size size place)) c

abbrev pub whole_buffer : Env → (total : ℕ) → Server → Ptr
whole_buffer env total s = env.address (malloc total ∷ s.trace)

-- `size` bytes are at `b`.
module _ (env : Env) (pfd b size : ℕ) (s : Server) where
  -- The rest is being read into a new buffer.
  abbrev pub reading : (total : ℕ) → Server
  reading total = record s {
    task_data = s.task_data ++ body_task (whole_buffer env total s) total size ∷ [];
    trace =
        submit_read pfd (whole_buffer env total s + size) (sub_size total size) (length s.task_data)
        ∷ copy (whole_buffer env total s) b size
        ∷ malloc total
        ∷ s.trace;
  }

module _ (env : Env) (pfd : ℕ) (s : Server) where
  -- The usual buffer of a network read, and a read into it that has been submitted.
  abbrev pub normal_buffer : Ptr
  normal_buffer = env.address (malloc read_size ∷ s.trace)

  abbrev pub another_read : Server
  another_read = record s {
    task_data =
        s.task_data
        ++ record default_task {
          op_type = OperationType.network_read;
          buff = normal_buffer;
          buff_length = read_size;
        }
          ∷ [];
    trace =
        submit_read pfd normal_buffer read_size (length s.task_data) ∷ malloc read_size ∷ s.trace;
  }

-- The bytes behind `place` are a part of a body of `c` bytes.
module _ (env : Env) (pfd b size place c : ℕ) (s : Server) where
  module _ (fresh : s.task_freed_idxs ≡ []) where
    read_rest-ok :
        whole_buffer env (whole_size size place c) s == null ≡ false
        → read_rest env pfd b size (sub_size size place) c s
          ≡ ok tt (reading env pfd b size s (whole_size size place c))
    unfolding read_rest
    read_rest-ok real =
        let total = whole_size size place c in
        let buffer = whole_buffer env total s in
        let copied = record s { trace = copy buffer b size ∷ malloc total ∷ s.trace } in
        rw
          (
            get_task_buff_op-ok copied fresh OperationType.http_post_read buffer total,
            with_buffer-real OperationType.http_post_read buffer total real,
            modify_task-last copied fresh
                (record default_task {
                  op_type = OperationType.http_post_read;
                  buff = buffer;
                  buff_length = total;
                })
                (λ t. record t { progress = size }),
            read_rest,
          )
          refl

    read_normal-ok :
        (size == read_size) ≡ false
        → normal_buffer env pfd s == null ≡ false
        → read_normal env pfd size s ≡ ok tt (another_read env pfd s)
    unfolding read_normal
    read_normal-ok unusual real =
        let allocated = record s { trace = malloc read_size ∷ s.trace } in
        rw
          (
            unusual,
            get_task_buff_op-ok allocated fresh OperationType.network_read (normal_buffer env pfd s)
                read_size,
            with_buffer-real OperationType.network_read (normal_buffer env pfd s) read_size real,
            read_normal,
          )
          refl

    module _ (req : HttpRequest) (received : Received env s b size req)
        (posted : Posted req place c) where
      post_request-rest :
          sub_size size place < c
          → whole_buffer env (whole_size size place c) s == null ≡ false
          → post_request env pfd b size req.content_length req.content s
            ≡ ok (some true) (reading env pfd b size s (whole_size size place c))
      unfolding post_request post_content
      post_request-rest more real =
          let differ : (sub_size size place == c) ≡ false = ground arith in
          let fewer : ltb (sub_size size place) c ≡ true = ground arith in
          rw
            (
              posted.length_given,
              posted.body_found,
              posted.length_read,
              differ,
              fewer,
              read_rest-ok real,
            )
            refl

      post_request-whole :
          sub_size size place ≡ c
          → (size == read_size) ≡ false
          → normal_buffer env pfd s == null ≡ false
          → post_request env pfd b size req.content_length req.content s
            ≡ ok none (another_read env pfd s)
      unfolding post_request post_content
      post_request-whole whole unusual real =
          let same : (sub_size size place == c) ≡ true = ground arith in
          rw
            (
              posted.length_given,
              posted.body_found,
              posted.length_read,
              same,
              read_normal-ok unusual real,
            )
            refl

      pub http_response_method-rest :
          sub_size size place < c
          → whole_buffer env (whole_size size place c) s == null ≡ false
          → http_response_method env pfd (some false) b size false s
            ≡ ok (true, some false) (reading env pfd b size s (whole_size size place c))
      unfolding http_response_method
      http_response_method-rest more real = ground (
        arith,
        parse_request-Received env s b size req received,
        posted.is_post,
        post_request-rest more real,
      )

      pub http_response_method-whole :
          sub_size size place ≡ c
          → (size == read_size) ≡ false
          → normal_buffer env pfd s == null ≡ false
          → req.valid_req ≡ true
          → http_response_method env pfd (some false) b size false s
            ≡ ok
                (true, some true)
                (told env (http_read_done req pfd false) (another_read env pfd s))
      unfolding http_response_method
      http_response_method-whole whole unusual real valid = ground (
        arith,
        parse_request-Received env s b size req received,
        posted.is_post,
        post_request-whole whole unusual real,
        valid,
      )
