-- ===== src/Server/Reads/Body.antt =====
-- A network read that brings a POST request: its body is complete, or the rest is read.
use network_server.Base.{
  ℕ, ◌+◌, ◌-◌, ◌^◌, ◌<◌, ◌≤◌, ◌≡◌, refl, ap, ◌∙◌, true, false, some, [], ◌∷◌, ◌++◌, arith, length,
  get_elem?, get_elem?-append_lt, get_elem?_lt, pos, ◌==◌, add_size, sub_size, ok,
}
use network_server.Lru.{null}
use network_server.Request.{HttpRequest}
use network_server.Server.{
  OperationType, Task, Server, Env, read_size, submit_read, copy, free, malloc, http_read_done,
}
use network_server.Server.Callbacks.WriteProgress.{told}
use network_server.Server.Reads.{read_callback}
use network_server.Server.Reads.Network.{
  Received, request_read-accepted, request_read-waiting, read_again, read_callback-request,
}
use network_server.Server.Reads.Post.{
  body_task, Posted, whole_size, whole_buffer, reading, another_read, http_response_method-rest,
  http_response_method-whole,
}

-- The sizes of a body of `c` bytes behind a header of `place` bytes.
rest_sizes :
    (place size c : ℕ)
    → place ≤ size
    → size - place < c
    → place + c < 2 ^ 64
    → (add_size (sub_size size (sub_size size place)) c ≡ place + c)
      × (sub_size (place + c) size ≡ c - (size - place))
      × (sub_size size place ≡ size - place)
rest_sizes place size c behind more fits = (omega arith, omega arith, omega arith)

-- The state in which the rest of the body is being read, its sizes without wrap-around.
abbrev pub body_awaited : Env → (pfd b size place c : ℕ) → Task → Server → Server
body_awaited env pfd b size place c t s =
    let large = env.address (malloc (place + c) ∷ s.trace) in
    record s {
      task_data = s.task_data ++ body_task large (place + c) size ∷ [];
      trace =
          free t.buff
          ∷ submit_read pfd (large + size) (c - (size - place)) (length s.task_data)
          ∷ copy large b size
          ∷ malloc (place + c)
          ∷ s.trace;
    }

reading-body_awaited :
    (env : Env) (pfd b size place c : ℕ) (t : Task) (s : Server)
    → place ≤ size
    → size - place < c
    → place + c < 2 ^ 64
    → (let u = reading env pfd b size s (whole_size size place c) in
        record u { trace = free t.buff ∷ u.trace })
      ≡ body_awaited env pfd b size place c t s
reading-body_awaited env pfd b size place c t s behind more fits =
    let (total, rest, actual) = rest_sizes place size c behind more fits in rw (total, rest) refl

module _ (env : Env) (errno pfd id b n k place c : ℕ) (s : Server) (t : Task) (req : HttpRequest)
    (found : get_elem? s.task_data id ≡ some t) (network : t.op_type ≡ OperationType.network_read)
    (some_bytes : 0 < k) (fresh : s.task_freed_idxs ≡ [])
    (received : Received env s b (t.progress + k) req) (posted : Posted req place c)
    (behind : place ≤ t.progress + k) (small : t.progress + k < 2 ^ 64) where
  rest_run :
      sub_size (t.progress + k) place < c
      → whole_buffer env (whole_size (t.progress + k) place c) s == null ≡ false
      → read_callback env errno pfd id b n (pos k) s
        ≡ ok tt (
            let u = reading env pfd b (t.progress + k) s (whole_size (t.progress + k) place c) in
            record u { trace = free t.buff ∷ u.trace })
  rest_run more real =
      read_callback-request env errno pfd id b n k s t req found network some_bytes small received
      ∙ request_read-waiting env pfd id b (t.progress + k) s _ t
          (http_response_method-rest env pfd b (t.progress + k) place c s fresh req received posted
            more real)
          (get_elem?-append_lt s.task_data _ id (get_elem?_lt s.task_data id found) ∙ found)

  -- A network read that brings a part of a POST request, whose header is `place` bytes long and
  -- gives a length `c` that is more than what came behind it: one buffer of exactly the size of the
  -- whole request is allocated, what came is copied to its front, one read of exactly the bytes that
  -- are missing is submitted into the place behind it, and then the old buffer is freed. No task id
  -- is free for use, the sizes are below 2 ^ 64, and the allocation does not fail.
  pub read_callback-body_awaited :
      (t.progress + k) - place < c
      → place + c < 2 ^ 64
      → env.address (malloc (place + c) ∷ s.trace) == null ≡ false
      → read_callback env errno pfd id b n (pos k) s
        ≡ ok tt (body_awaited env pfd b (t.progress + k) place c t s)
  read_callback-body_awaited more fits real =
      let size = t.progress + k in
      let (total, rest, actual) = rest_sizes place size c behind more fits in
      rest_run (omega (arith, actual))
        (ap (λ n. env.address (malloc n ∷ s.trace) == null) total ∙ real)
      ∙ ap (ok tt) (reading-body_awaited env pfd b size place c t s behind more fits)

  -- A network read that brings a whole valid POST request, of a size other than that of the usual
  -- buffer: two reads are outstanding on the connection afterwards, one by a new task, submitted
  -- before the application is told, and one by the old task, if it is still there.
  pub read_callback-two_reads :
      (t' : Task)
      → (t.progress + k) - place ≡ c
      → (t.progress + k == read_size) ≡ false
      → env.address (malloc read_size ∷ s.trace) == null ≡ false
      → req.valid_req ≡ true
      → get_elem? (told env (http_read_done req pfd false) (another_read env pfd s)).task_data id
        ≡ some t'
      → read_callback env errno pfd id b n (pos k) s
        ≡ ok tt (
            read_again pfd id t' (told env (http_read_done req pfd false) (another_read env pfd s)))
  read_callback-two_reads t' whole unusual real valid kept =
      let size = t.progress + k in
      read_callback-request env errno pfd id b n k s t req found network some_bytes small received
      ∙ request_read-accepted env pfd id b size s _ t'
          (http_response_method-whole env pfd b size place c s fresh req received posted
            (omega (arith, whole)) unusual real valid)
          kept

  -- A length that is negative as an `int`, `-j`, and a header of at least `j` bytes: the buffer for
  -- the whole request is smaller than what came, all of which is copied into it.
  pub read_callback-overflow :
      (j : ℕ)
      → 1 ≤ j
      → j ≤ place
      → c ≡ 2 ^ 64 - j
      → env.address (malloc (place - j) ∷ s.trace) == null ≡ false
      → (u : Server) × (read_callback env errno pfd id b n (pos k) s ≡ ok tt u)
        × (u.trace
            ≡ free t.buff
              ∷ submit_read pfd
                  (env.address (malloc (place - j) ∷ s.trace) + (t.progress + k))
                  (2 ^ 64 + (place - j) - (t.progress + k))
                  (length s.task_data)
              ∷ copy (env.address (malloc (place - j) ∷ s.trace)) b (t.progress + k)
              ∷ malloc (place - j)
              ∷ s.trace)
        × (place - j < t.progress + k)
  read_callback-overflow j one below negative real =
      let size = t.progress + k in
      let total : whole_size size place c ≡ place - j = omega (arith, negative) in
      let rest : sub_size (place - j) size ≡ 2 ^ 64 + (place - j) - size = omega arith in
      (
        _,
        rest_run (omega (arith, negative))
            (ap (λ n. env.address (malloc n ∷ s.trace) == null) total ∙ real),
        rw (total, rest) refl,
        omega arith,
      )
