-- ===== src/Server/Reads/Network.antt =====
-- A network read that brings a request: what the server does with the connection.
use network_server.Base.{
  ℕ, ◌+◌, ◌^◌, ◌<◌, ◌≡◌, refl, ap, ◌∙◌, true, false, some, ◌∷◌, arith, get_elem?, set,
  get_elem?-set_self, get_elem?_lt, codes, bytes_eq, pos, ◌==◌, ok,
}
use network_server.Lru.{null}
use network_server.Request.{HttpRequest}
use network_server.Request.Build.{http_request}
use network_server.Server.{
  OperationType, Task, Server, Env, submit_read, close_pfd, free, clear, http_read_done,
}
use network_server.Server.Tasks.{free_task}
use network_server.Server.Client.{websocket_frame_response_method}
use network_server.Server.Requests.{parse_request, http_response_method, network_read_procedure}
use network_server.Server.Callbacks.WriteProgress.{told}
use network_server.Server.Reads.{read_callback, read_data, request_read, resubmit_or_free}
use network_server.Server.Reads.Parts.{read_callback-data}

-- The task reads again, into its whole buffer.
abbrev pub read_again : (pfd id : ℕ) → Task → Server → Server
read_again pfd id t s = record s {
  task_data = set s.task_data id (record t { progress = 0 });
  trace = submit_read pfd t.buff t.buff_length id ∷ clear t.buff t.buff_length ∷ s.trace;
}

-- The bytes at `b` are a request.
abbrev pub Received : Env → Server → (b size : ℕ) → HttpRequest → Type 0
Received env s b size req =
    (b == null ≡ false) × (http_request (some (env.bytes s.trace b size)) ≡ ok tt req)

pub parse_request-Received :
    (env : Env) (s : Server) (b size : ℕ) (req : HttpRequest)
    → Received env s b size req
    → parse_request env b size s ≡ ok req s
unfolding parse_request
parse_request-Received env s b size req (real, parsed) = rw (real, parsed, parse_request) refl

module _ (env : Env) (pfd b size : ℕ) (s : Server) (req : HttpRequest)
    (received : Received env s b size req)
    (not_post : bytes_eq req.req_type (codes "POST") ≡ false) where
  http_response_method-valid :
      req.valid_req ≡ true
      → http_response_method env pfd (some false) b size false s
        ≡ ok (true, some true) (told env (http_read_done req pfd false) s)
  unfolding http_response_method
  http_response_method-valid valid =
      ground (arith, parse_request-Received env s b size req received, not_post, valid)

  http_response_method-invalid :
      req.valid_req ≡ false
      → http_response_method env pfd (some false) b size false s ≡ ok (false, some false) s
  unfolding http_response_method
  http_response_method-invalid invalid =
      ground (arith, parse_request-Received env s b size req received, not_post, invalid)

pub read_data-network :
    (env : Env) (pfd id b k : ℕ) (s : Server) (t : Task)
    → get_elem? s.task_data id ≡ some t
    → t.progress + k < 2 ^ 64
    → read_data env OperationType.network_read pfd id b (pos k) s
      ≡ request_read env false pfd id b (t.progress + k) s
unfolding read_data
read_data-network env pfd id b k s t found small =
    rw (found, read_data)
      (ap (λ n. request_read env false pfd id b n s) {y = t.progress + k} (omega arith))

-- The same, for a task that read a body: it becomes one of a network read.
abbrev pub network_again : (pfd id : ℕ) → Task → Server → Server
network_again pfd id t s = record s {
  task_data = set s.task_data id (record t { progress = 0; op_type = OperationType.network_read });
  trace = submit_read pfd t.buff t.buff_length id ∷ clear t.buff t.buff_length ∷ s.trace;
}

resubmit_or_free-converts :
    (env : Env) (pfd id : ℕ) (u : Server) (t : Task)
    → get_elem? u.task_data id ≡ some t
    → resubmit_or_free env true pfd id (some true) u ≡ ok tt (network_again pfd id t u)
unfolding resubmit_or_free
resubmit_or_free-converts env pfd id u t found =
    rw
      (
        found,
        get_elem?-set_self u.task_data id
            (record t { progress = 0; op_type = OperationType.network_read })
            (get_elem?_lt u.task_data id found),
        resubmit_or_free,
      )
      refl

pub request_read-converts :
    (env : Env) (pfd id b size : ℕ) (s u : Server) (t : Task)
    → http_response_method env pfd (some false) b size false s ≡ ok (true, some true) u
    → get_elem? u.task_data id ≡ some t
    → request_read env true pfd id b size s ≡ ok tt (network_again pfd id t u)
unfolding request_read network_read_procedure
request_read-converts env pfd id b size s u t taken found =
    rw (taken, request_read) (resubmit_or_free-converts env pfd id u t found)

resubmit_or_free-again :
    (env : Env) (pfd id : ℕ) (u : Server) (t : Task)
    → get_elem? u.task_data id ≡ some t
    → resubmit_or_free env false pfd id (some true) u ≡ ok tt (read_again pfd id t u)
unfolding resubmit_or_free
resubmit_or_free-again env pfd id u t found =
    rw
      (
        found,
        get_elem?-set_self u.task_data id (record t { progress = 0 })
            (get_elem?_lt u.task_data id found),
        resubmit_or_free,
      )
      refl

-- A request that is taken, and a task that the application leaves alone.
pub request_read-accepted :
    (env : Env) (pfd id b size : ℕ) (s u : Server) (t : Task)
    → http_response_method env pfd (some false) b size false s ≡ ok (true, some true) u
    → get_elem? u.task_data id ≡ some t
    → request_read env false pfd id b size s ≡ ok tt (read_again pfd id t u)
unfolding request_read network_read_procedure
request_read-accepted env pfd id b size s u t taken found =
    rw (taken, request_read) (resubmit_or_free-again env pfd id u t found)

request_read-refused :
    (env : Env) (pfd id b size : ℕ) (s u : Server) (t : Task)
    → http_response_method env pfd (some false) b size false s ≡ ok (false, some false) u
    → get_elem? u.task_data id ≡ some t
    → request_read env false pfd id b size s
      ≡ ok tt (record u { trace = free t.buff ∷ close_pfd pfd id ∷ u.trace })
unfolding request_read network_read_procedure resubmit_or_free websocket_frame_response_method
    free_task
request_read-refused env pfd id b size s u t refused found = ground (arith, refused, found)

pub request_read-waiting :
    (env : Env) (pfd id b size : ℕ) (s u : Server) (t : Task)
    → http_response_method env pfd (some false) b size false s ≡ ok (true, some false) u
    → get_elem? u.task_data id ≡ some t
    → request_read env false pfd id b size s ≡ ok tt (record u { trace = free t.buff ∷ u.trace })
unfolding request_read network_read_procedure resubmit_or_free free_task
request_read-waiting env pfd id b size s u t waiting found = ground (arith, waiting, found)

module _ (env : Env) (errno pfd id b n k : ℕ) (s : Server) (t : Task) (req : HttpRequest)
    (found : get_elem? s.task_data id ≡ some t) (network : t.op_type ≡ OperationType.network_read)
    (some_bytes : 0 < k) (small : t.progress + k < 2 ^ 64)
    (received : Received env s b (t.progress + k) req) where
  pub read_callback-request :
      read_callback env errno pfd id b n (pos k) s
      ≡ request_read env false pfd id b (t.progress + k) s
  read_callback-request =
      read_callback-data env errno pfd id b n k s t found some_bytes
      ∙ ap (λ type. read_data env type pfd id b (pos k) s) network
      ∙ read_data-network env pfd id b k s t found small

  -- A network read that brings a valid request other than POST: the application is told of it once,
  -- and if the task is still there after that, the connection is read again, into the task's whole
  -- buffer, and nothing is closed or freed.
  pub read_callback-continues :
      (t' : Task)
      → bytes_eq req.req_type (codes "POST") ≡ false
      → req.valid_req ≡ true
      → get_elem? (told env (http_read_done req pfd false) s).task_data id ≡ some t'
      → read_callback env errno pfd id b n (pos k) s
        ≡ ok tt (read_again pfd id t' (told env (http_read_done req pfd false) s))
  read_callback-continues t' not_post valid kept =
      read_callback-request
      ∙ request_read-accepted env pfd id b (t.progress + k) s _ t'
          (http_response_method-valid env pfd b (t.progress + k) s req received not_post valid) kept

  -- A network read that brings an invalid request other than POST: the connection is closed and the
  -- buffer freed, and the application is not told.
  pub read_callback-refuses :
      bytes_eq req.req_type (codes "POST") ≡ false
      → req.valid_req ≡ false
      → read_callback env errno pfd id b n (pos k) s
        ≡ ok tt (record s { trace = free t.buff ∷ close_pfd pfd id ∷ s.trace })
  read_callback-refuses not_post invalid =
      read_callback-request
      ∙ request_read-refused env pfd id b (t.progress + k) s s t
          (http_response_method-invalid env pfd b (t.progress + k) s req received not_post invalid)
          found
