-- ===== src/Server/Reads/Conversation.antt =====
-- A connection from its accept through any number of requests.
use network_server.Base.{
  ℕ, ◌+◌, ◌<◌, ◌^◌, ◌≡◌, refl, ap, subst, ◌∙◌, true, false, some, List, [], ◌∷◌, length, get_elem?,
  get_elem?-set_self, get_elem?_lt, get_elem?-append_self, codes, bytes_eq, pos, ◌==◌, is_neg, ok,
  and_then, ◌>>◌, arith,
}
use network_server.Lru.{Ptr, null}
use network_server.Request.{HttpRequest}
use network_server.Server.{Server, ServerCmd, Env, http_read_done, submit_accept}
use network_server.Server.Callbacks.{accept_callback}
use network_server.Server.Callbacks.Accepting.{
  network_task, connection_buffer, first_read, connected, accept_callback-connected,
}
use network_server.Server.Callbacks.WriteProgress.{told}
use network_server.Server.Reads.Parts.{run_reads}
use network_server.Server.Reads.Network.{Received, read_again, read_callback-continues}

-- A request and the number of bytes in which it comes.
pub record Arrival : Type 0 where
  pub size : ℕ
  pub request : HttpRequest

abbrev pub sizes : List Arrival → List ℕ
sizes [] = []
sizes (a ∷ arrivals) = a.size ∷ sizes arrivals

-- A valid request other than POST lies in the buffer, and the application, told of it, leaves the
-- task of the connection alone.
pub record Arrives (env : Env) (pfd id : ℕ) (b : Ptr) (a : Arrival) (s : Server) : Type 0 where
  pub some_bytes : 0 < a.size
  pub small : a.size < 2 ^ 64
  pub received : Received env s b a.size a.request
  pub not_post : bytes_eq a.request.req_type (codes "POST") ≡ false
  pub valid : a.request.valid_req ≡ true
  pub kept :
      get_elem? (told env (http_read_done a.request pfd false) s).task_data id
      ≡ some (network_task b)

module _ (env : Env) (pfd id : ℕ) (b : Ptr) where
  -- The application is told of the request, then the connection is read again.
  abbrev pub answered : Arrival → Server → Server
  answered a s =
      read_again pfd id (network_task b) (told env (http_read_done a.request pfd false) s)

  abbrev pub conversation : List Arrival → Server → Server
  conversation [] s = s
  conversation (a ∷ arrivals) s = conversation arrivals (answered a s)

  abbrev pub AllArrive : List Arrival → Server → Type 0
  AllArrive [] s = Unit {0}
  AllArrive (a ∷ arrivals) s = Arrives env pfd id b a s × AllArrive arrivals (answered a s)

  run_reads-conversation :
      (errno n : ℕ) (arrivals : List Arrival) (s : Server)
      → get_elem? s.task_data id ≡ some (network_task b)
      → AllArrive arrivals s
      → run_reads env errno pfd id b n (sizes arrivals) s ≡ ok tt (conversation arrivals s)
  unfolding run_reads
  run_reads-conversation errno n [] s found arrive = refl
  run_reads-conversation errno n (a ∷ arrivals) s found (first, rest) =
      let u = told env (http_read_done a.request pfd false) s in
      let size : a.size ≡ 0 + a.size = omega arith in
      ap (λ run. and_then run (λ _. run_reads env errno pfd id b n (sizes arrivals)))
        (read_callback-continues env errno pfd id b n a.size s (network_task b) a.request found refl
          first.some_bytes (omega (arith, first.small))
          (subst (λ size. Received env s b size a.request) size first.received) (network_task b)
          first.not_post first.valid first.kept)
      ∙ run_reads-conversation errno n arrivals (answered a s)
          (get_elem?-set_self u.task_data id (network_task b)
            (get_elem?_lt u.task_data id first.kept))
          rest

-- The server accepts a connection, and its requests come one after another.
unfoldable pub accept_and_read :
    Env → (errno listener_pfd pfd result id b n : ℕ) → List ℕ → ServerCmd (Unit {0})
accept_and_read env errno listener_pfd pfd result id b n ks =
    accept_callback env errno listener_pfd pfd (pos result) >> run_reads env errno pfd id b n ks

-- A client connects and sends any number of valid requests other than POST, each in one read: the
-- server accepts the connection, submits the next accept, tells the application of each request
-- once, in their order, and after each reads the connection again into the same buffer, which it
-- does not free, and the connection stays open. Its first read and the next accept can be submitted,
-- the allocation succeeds, no task id is free for use, and the application leaves the task of the
-- connection alone.
pub accept_and_read-conversation :
    (env : Env) (errno listener_pfd pfd result n : ℕ) (s : Server) (arrivals : List Arrival)
    → s.task_freed_idxs ≡ []
    → connection_buffer env listener_pfd pfd s == null ≡ false
    → is_neg (env.answer (first_read env listener_pfd pfd s)) ≡ false
    → is_neg (env.answer (submit_accept listener_pfd ∷ first_read env listener_pfd pfd s)) ≡ false
    → AllArrive env pfd
        (length s.task_data)
        (connection_buffer env listener_pfd pfd s)
        arrivals
        (connected env listener_pfd pfd s)
    → accept_and_read env errno listener_pfd pfd result
        (length s.task_data)
        (connection_buffer env listener_pfd pfd s)
        n
        (sizes arrivals)
        s
      ≡ ok tt (
          conversation env pfd
            (length s.task_data)
            (connection_buffer env listener_pfd pfd s)
            arrivals
            (connected env listener_pfd pfd s))
unfolding accept_and_read
accept_and_read-conversation env errno listener_pfd pfd result n s arrivals fresh real reads accepts
      arrive =
    let id = length s.task_data in
    let b = connection_buffer env listener_pfd pfd s in
    ap (λ run. and_then run (λ _. run_reads env errno pfd id b n (sizes arrivals)))
      (accept_callback-connected env listener_pfd pfd s errno result fresh real reads accepts)
    ∙ run_reads-conversation env pfd id b errno n arrivals (connected env listener_pfd pfd s)
        (get_elem?-append_self s.task_data (network_task b)) arrive
