-- ===== src/Server/Reads/Whole.antt =====
-- The body of a POST request, read in several parts, and the request that it ends.
use network_server.Base.{
  ℕ, ◌+◌, ◌-◌, ◌^◌, ◌<◌, ◌≤◌, ◌≡◌, refl, ap, ◌∙◌, true, false, some, List, [], ◌∷◌, arith,
  get_elem?, get_elem?-append_lt, get_elem?_lt, ◌==◌, Bytes, ok,
}
use network_server.Lru.{null}
use network_server.Request.{HttpRequest}
use network_server.Request.Build.{http_request}
use network_server.Server.{
  OperationType, Task, Server, Env, Event, Callback, read_size, malloc, http_read_done,
}
use network_server.Server.Callbacks.WriteProgress.{told, sum, AllPositive}
use network_server.Server.Reads.{read_complete}
use network_server.Server.Reads.Parts.{run_reads, read_requests, run_reads-read_complete}
use network_server.Server.Reads.Network.{Received, network_again, request_read-converts}
use network_server.Server.Reads.Post.{Posted, another_read, http_response_method-whole}

-- The application's callback leaves a task alone.
abbrev pub Leaves : Env → Callback → (id : ℕ) → Type 0
Leaves env c id =
    (u : Server) (t : Task)
    → get_elem? u.task_data id ≡ some t
    → get_elem? (env.app c u).task_data id ≡ some t

module _ (env : Env) (errno pfd id b n k place : ℕ) (ks : List ℕ) (s : Server) (t : Task)
    (text : Bytes) (req : HttpRequest) (found : get_elem? s.task_data id ≡ some t)
    (post : t.op_type ≡ OperationType.http_post_read)
    (whole : t.progress + sum (k ∷ ks) ≡ t.buff_length) (positive : AllPositive (k ∷ ks))
    (small : t.buff_length < 2 ^ 64) (fresh : s.task_freed_idxs ≡ [])
    (real : t.buff == null ≡ false)
    (in_memory : env.bytes
        (read_requests t.buff t.buff_length pfd id t.progress (k ∷ ks) s.trace)
        t.buff
        t.buff_length
      ≡ text)
    (parsed : http_request (some text) ≡ ok tt req) (behind : place ≤ t.buff_length)
    (posted : Posted req place (t.buff_length - place)) (valid : req.valid_req ≡ true)
    (unusual : (t.buff_length == read_size) ≡ false)
    (allocates : (size : ℕ) (calls : List Event)
      → env.address (malloc size ∷ calls) == null ≡ false)
    (leaves : Leaves env (http_read_done req pfd false) id) where
  -- The body of a POST request comes in any number of parts.
  pub run_reads-told :
      (s' : Server) × (p : ℕ) × (s'.trace
        ≡ read_requests t.buff t.buff_length pfd id t.progress (k ∷ ks) s.trace)
      × (run_reads env errno pfd id b n (k ∷ ks) s
          ≡ ok tt (
              network_again pfd id
                (record t { progress = p })
                (told env (http_read_done req pfd false) (another_read env pfd s'))))
  unfolding read_complete
  run_reads-told =
      let (s', e, calls, (p, kept), ids, cache) =
        run_reads-read_complete env errno pfd id b n k ks s t found (rw post refl) whole positive
          small in
      let received : Received env s' t.buff t.buff_length req = (
        real,
        ap (λ calls. http_request (some (env.bytes calls t.buff t.buff_length))) calls
            ∙ ap (λ bytes. http_request (some bytes)) in_memory
            ∙ parsed,
      ) in
      (
        s',
        p,
        calls,
        e
            ∙ ap (λ type. read_complete env type pfd id t.buff t.buff_length s') post
            ∙ request_read-converts env pfd id t.buff t.buff_length s' _ (record t { progress = p })
                (http_response_method-whole env pfd t.buff t.buff_length place
                  (t.buff_length - place) s' (ids ∙ fresh) req received posted (omega arith) unusual
                  (allocates _ _) valid)
                (leaves _ _ (
                  get_elem?-append_lt s'.task_data _ id (get_elem?_lt s'.task_data id kept)
                  ∙ kept)),
      )
