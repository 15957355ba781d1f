-- ===== src/Server/Requests.antt =====
-- src/http.cpp and src/core.cpp: what the server does with the bytes of a network read.
use network_server.Base.{
  ℕ, ◌+◌, Bool, true, false, not, ◌&&◌, Option, none, some, ltb, ◌==◌, if◌then◌else◌, codes,
  bytes_eq, atoi, add_size, sub_size, Run, ok, fault, out_of_fuel, exited, pure, or_fault, ◌>>=◌,
  ◌>>◌,
}
use network_server.Lru.{Ptr, null}
use network_server.Request.{CharPtr, null_char, char_text, char_place, HttpRequest}
use network_server.Request.Build.{http_request}
use network_server.Server.{
  OperationType, Env, ServerCmd, read_size, submit_read, close_pfd, copy, http_read_done, emit,
  modify_task, ask, allocate, call_back,
}
use network_server.Server.Tasks.{get_task_buff_op}
use network_server.Server.Client.{websocket_frame_response_method}

-- The run of a constructor within the server.
abbrev pub constructed : Run HttpRequest (Unit {0}) → ServerCmd HttpRequest
constructed (ok _ r) s = ok r s
constructed fault s = fault
constructed out_of_fuel s = out_of_fuel
constructed (exited _) s = exited s

module _ (env : Env) where
  unfoldable pub parse_request : Ptr → ℕ → ServerCmd HttpRequest
  parse_request buffer size s =
      constructed
        (http_request (if buffer == null then none else some (env.bytes s.trace buffer size))) s

  -- A body that is complete. Unless the buffer is as large as the usual one, a read into one that
  -- is gets submitted.
  unfoldable pub read_normal : ℕ → ℕ → ServerCmd (Unit {0})
  unfolding allocate get_task_buff_op ask
  read_normal pfd size = if size == read_size then pure tt else do
    normal_buff ← allocate env read_size
    net_read_task_id ← get_task_buff_op OperationType.network_read normal_buff read_size
    ask env (submit_read pfd normal_buff read_size net_read_task_id)
    pure tt

  -- The rest of a body is read behind a copy of what there is.
  unfoldable pub read_rest : ℕ → Ptr → (size actual_len content_len : ℕ) → ServerCmd (Unit {0})
  unfolding allocate get_task_buff_op ask emit modify_task
  read_rest pfd buffer size actual_len content_len = do
    let large_buff_size = add_size (sub_size size actual_len) content_len
    large_buff ← allocate env large_buff_size
    emit (copy large_buff buffer size)
    read_post_task_id ← get_task_buff_op OperationType.http_post_read large_buff large_buff_size
    modify_task read_post_task_id λ t. record t { progress = size }
    ask env (submit_read pfd (large_buff + size) (sub_size large_buff_size size) read_post_task_id)
    pure tt

  -- The value with which a POST request returns early, if it does.
  unfoldable pub post_content : ℕ → Ptr → ℕ → ℕ → CharPtr → ServerCmd (Option Bool)
  unfolding read_normal read_rest
  post_content pfd buffer size content_len null_char =
      pure (if content_len == 0 then none else some false)
  post_content pfd buffer size content_len content = do
    header_len ← or_fault (char_place content)
    let actual_len = sub_size size header_len
    if actual_len == content_len
        then (do read_normal pfd size; pure none)
        else if ltb actual_len content_len
        then (do read_rest pfd buffer size actual_len content_len; pure (some true))
        else pure none

  unfoldable pub post_request : ℕ → Ptr → ℕ → CharPtr → CharPtr → ServerCmd (Option Bool)
  unfolding post_content
  post_request pfd buffer size null_char content = pure (some false)
  post_request pfd buffer size content_length content = do
    text ← or_fault (char_text content_length)
    post_content pfd buffer size (atoi text) content

  -- `flag` is `*should_auto_resubmit_read`, or none if that pointer is null. The result is whether
  -- the data was a request, and the flag.
  unfoldable pub http_response_method :
      ℕ → Option Bool → Ptr → ℕ → Bool → ServerCmd (Bool × Option Bool)
  unfolding parse_request post_request call_back
  http_response_method pfd flag buffer size failed_req = do
    req ← parse_request buffer size
    early ←
        if bytes_eq req.req_type (codes "POST")
        then post_request pfd buffer size req.content_length req.content
        else pure none
    elim early [
      | some answer ↦ pure (answer, flag)
      | none ↦ if not req.valid_req then pure (false, flag) else do
        call_back env (http_read_done req pfd failed_req)
        pure (true, elim flag [ none ↦ none | some _ ↦ some true ])
    ]

  unfoldable pub network_read_procedure :
      ℕ → ℕ → Option Bool → Bool → Ptr → ℕ → ServerCmd (Option Bool)
  unfolding http_response_method emit
  network_read_procedure pfd task_id flag failed_req buffer size = do
    (accepted, flag) ← http_response_method pfd flag buffer size failed_req
    if accepted then pure flag else do
      framed ← websocket_frame_response_method pfd buffer size failed_req
      if not framed && not failed_req then emit (close_pfd pfd task_id) else pure tt
      pure flag
