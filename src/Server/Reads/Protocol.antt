-- ===== src/Server/Reads/Protocol.antt =====
-- A POST request from its first bytes to the application.
use network_server.Base.{
  ℕ, ◌+◌, ◌-◌, ◌^◌, ◌<◌, ◌≤◌, ◌≡◌, refl, ap, subst, ◌∙◌, true, false, some, List, [], ◌∷◌, arith,
  length, get_elem?, get_elem?-append_self, pos, ◌==◌, Bytes, ok, and_then, ◌>>◌,
}
use network_server.Lru.{Ptr, null}
use network_server.Request.{HttpRequest}
use network_server.Request.Build.{http_request}
use network_server.Server.{
  OperationType, Task, Server, ServerCmd, Env, Event, read_size, malloc, http_read_done,
}
use network_server.Server.Callbacks.WriteProgress.{told, sum, AllPositive}
use network_server.Server.Reads.{read_callback}
use network_server.Server.Reads.Parts.{run_reads, read_requests}
use network_server.Server.Reads.Network.{Received, network_again}
use network_server.Server.Reads.Post.{Posted, another_read, body_task}
use network_server.Server.Reads.Body.{body_awaited, read_callback-body_awaited}
use network_server.Server.Reads.Whole.{Leaves, run_reads-told}

-- A network read of `k` bytes, then the reads of the rest of the body.
unfoldable pub post_reads : Env → (errno pfd id b n k rest_id : ℕ) → List ℕ → ServerCmd (Unit {0})
post_reads env errno pfd id b n k rest_id ks =
    read_callback env errno pfd id b n (pos k) >> run_reads env errno pfd rest_id b n ks

-- The first bytes of a request, in the buffer of a network task, and what its header says: `place` is
-- the length of the header and `c` that of the body, which is not there yet.
pub record Begun (env : Env) (b k place c : ℕ) (s : Server) (t : Task) : Type 0 where
  pub network : t.op_type ≡ OperationType.network_read
  pub some_bytes : 0 < k
  pub fresh : s.task_freed_idxs ≡ []
  pub first : HttpRequest
  pub received : Received env s b (t.progress + k) first
  pub posted_first : Posted first place c
  pub behind : place ≤ t.progress + k
  pub more : (t.progress + k) - place < c
  pub fits : place + c < 2 ^ 64

-- The buffer for the whole request, and the calls until it is full.
abbrev pub large_buffer : Env → (place c : ℕ) → Server → Ptr
large_buffer env place c s = env.address (malloc (place + c) ∷ s.trace)

abbrev pub calls_until_full : Env → (pfd b k place c : ℕ) → List ℕ → Server → Task → List Event
calls_until_full env pfd b k place c ks s t =
    read_requests (large_buffer env place c s) (place + c) pfd (length s.task_data) (t.progress + k)
      ks (body_awaited env pfd b (t.progress + k) place c t s).trace

-- What lies in that buffer in the end: a POST request with that header.
pub record Completed (env : Env) (pfd b k place c : ℕ) (ks : List ℕ) (s : Server) (t : Task)
    (req : HttpRequest) : Type 0 where
  pub text : Bytes
  pub in_memory :
      env.bytes
        (calls_until_full env pfd b k place c ks s t)
        (large_buffer env place c s)
        (place + c)
      ≡ text
  pub parsed : http_request (some text) ≡ ok tt req
  pub posted : Posted req place c
  pub valid : req.valid_req ≡ true

-- A POST request whose header is read at once and whose body comes in any number of further parts,
-- none of them empty, which together are what is missing: the parts go into one buffer, each behind
-- the one before, and when it is full the application is told of the whole request, once. Then the
-- connection is read again, twice: by a new task and by the task of the body. Allocations succeed,
-- the application leaves the task of the body alone, no task id is free for use, and the request is
-- not exactly as long as the buffers that the reads of requests have.
pub post_reads-told :
    (env : Env) (errno pfd id b n k place c k' : ℕ) (ks : List ℕ) (s : Server) (t : Task)
    (req : HttpRequest)
    → get_elem? s.task_data id ≡ some t
    → Begun env b k place c s t
    → Completed env pfd b k place c (k' ∷ ks) s t req
    → (t.progress + k) + sum (k' ∷ ks) ≡ place + c
    → AllPositive (k' ∷ ks)
    → (place + c == read_size) ≡ false
    → ((size : ℕ) (calls : List Event) → env.address (malloc size ∷ calls) == null ≡ false)
    → Leaves env (http_read_done req pfd false) (length s.task_data)
    → (s' : Server) × (p : ℕ) × (s'.trace ≡ calls_until_full env pfd b k place c (k' ∷ ks) s t)
      × (post_reads env errno pfd id b n k (length s.task_data) (k' ∷ ks) s
          ≡ ok tt (
              network_again pfd
                (length s.task_data)
                (body_task (large_buffer env place c s) (place + c) p)
                (told env (http_read_done req pfd false) (another_read env pfd s'))))
unfolding post_reads
post_reads-told env errno pfd id b n k place c k' ks s t req found begun completed whole positive
      unusual allocates leaves =
    let size = t.progress + k in
    let u = body_awaited env pfd b size place c t s in
    let missing : c ≡ place + c - place = omega arith in
    let waiting =
      read_callback-body_awaited env errno pfd id b n k place c s t begun.first found begun.network
        begun.some_bytes begun.fresh begun.received begun.posted_first begun.behind
        (omega (arith, whole, begun.fits)) begun.more begun.fits (allocates _ _) in
    let (s', p, calls, e) =
      run_reads-told env errno pfd (length s.task_data) b n k' place ks u
        (body_task (large_buffer env place c s) (place + c) size) completed.text req
        (get_elem?-append_self s.task_data _) refl whole positive begun.fits begun.fresh
        (allocates _ _) completed.in_memory completed.parsed (omega arith)
        (subst (Posted req place) missing completed.posted) completed.valid unusual allocates
        leaves in
    (
      s',
      p,
      calls,
      ap (λ run. and_then run (λ _. run_reads env errno pfd (length s.task_data) b n (k' ∷ ks)))
            waiting
          ∙ e,
    )
