-- ===== src/Server/Client.antt =====
-- src/raw_ops.cpp, src/websocket.cpp, the client methods of src/http.cpp, and the methods of
-- src/core.cpp that only call the event manager.
pub mod Requests
use network_server.Base.{ℕ, Bool, true, false, List, [], ◌∷◌, ℤ, pos, pure, ◌>>=◌, ◌>>◌}
use network_server.Lru.{Ptr}
use network_server.Server.{
  OperationType, Env, ServerCmd, Event, submit_read, submit_readv, submit_write, submit_writev,
  close_pfd, submit_generic_event, pass_fd, create_event_fd, event_manager_start,
  event_manager_kill, event_alert, emit, modify_task, ask,
}
use network_server.Server.Tasks.{get_task, get_task_buff_op, get_task_vector_op}

-- The three close methods.
unfoldable pub close_with : OperationType → ℕ → ServerCmd ℤ
unfolding get_task modify_task emit
close_with type pfd = do
  task_id ← get_task
  modify_task task_id (λ t. record t { op_type = type })
  emit (close_pfd pfd task_id)
  pure (pos 0)

module _ (env : Env) where
  unfoldable pub raw_read : ℕ → Ptr → ℕ → ServerCmd ℤ
  unfolding get_task_buff_op ask
  raw_read pfd buffer size = do
    task_id ← get_task_buff_op OperationType.raw_read buffer size
    ask env (submit_read pfd buffer size task_id)

  unfoldable pub raw_readv : ℕ → Ptr → ℕ → ServerCmd ℤ
  unfolding get_task_vector_op ask
  raw_readv pfd iovs num_iovecs = do
    task_id ← get_task_vector_op env OperationType.raw_readv iovs num_iovecs
    ask env (submit_readv pfd iovs num_iovecs task_id)

  -- The source submits a `readv` here.
  unfoldable pub raw_writev : ℕ → Ptr → ℕ → ServerCmd ℤ
  unfolding get_task_vector_op ask
  raw_writev pfd iovs num_iovecs = do
    task_id ← get_task_vector_op env OperationType.raw_writev iovs num_iovecs
    ask env (submit_readv pfd iovs num_iovecs task_id)

  unfoldable pub raw_write : ℕ → Ptr → ℕ → ServerCmd ℤ
  unfolding get_task_buff_op ask
  raw_write pfd buffer size = do
    task_id ← get_task_buff_op OperationType.raw_write buffer size
    ask env (submit_write pfd buffer size task_id)

  unfoldable pub raw_close : ℕ → ServerCmd ℤ
  unfolding close_with
  raw_close = close_with OperationType.raw_close

  unfoldable pub eventfd_open : ServerCmd ℤ
  unfolding ask
  eventfd_open = ask env create_event_fd

  unfoldable pub eventfd_trigger : ℕ → ServerCmd ℤ
  unfolding ask
  eventfd_trigger pfd = ask env (event_alert pfd)

  unfoldable pub eventfd_prepare : ℕ → ℕ → ServerCmd ℤ
  unfolding ask
  eventfd_prepare pfd additional_info = ask env (submit_generic_event pfd additional_info)

  unfoldable pub http_writev : ℕ → Ptr → ℕ → ServerCmd ℤ
  unfolding get_task_vector_op ask
  http_writev pfd iovs num_iovecs = do
    task_id ← get_task_vector_op env OperationType.http_writev iovs num_iovecs
    ask env (submit_writev pfd iovs num_iovecs task_id)

  unfoldable pub http_write : ℕ → Ptr → ℕ → ServerCmd ℤ
  unfolding get_task_buff_op ask
  http_write pfd buff buff_length = do
    task_id ← get_task_buff_op OperationType.http_write buff buff_length
    ask env (submit_write pfd buff buff_length task_id)

  unfoldable pub http_close : ℕ → ServerCmd ℤ
  unfolding close_with
  http_close = close_with OperationType.http_close

  unfoldable pub websocket_writev : ℕ → Ptr → ℕ → ServerCmd ℤ
  unfolding get_task_vector_op ask
  websocket_writev pfd iovs num_iovecs = do
    task_id ← get_task_vector_op env OperationType.websocket_writev iovs num_iovecs
    ask env (submit_writev pfd iovs num_iovecs task_id)

  unfoldable pub websocket_write : ℕ → Ptr → ℕ → ServerCmd ℤ
  unfolding get_task_buff_op ask
  websocket_write pfd buffer size = do
    task_id ← get_task_buff_op OperationType.websocket_write buffer size
    ask env (submit_write pfd buffer size task_id)

  unfoldable pub websocket_close : ℕ → ServerCmd ℤ
  unfolding close_with
  websocket_close = close_with OperationType.websocket_close

  unfoldable pub get_client_num_from_fd : ℤ → ServerCmd ℤ
  unfolding ask
  get_client_num_from_fd fd = ask env (pass_fd fd)

-- Websockets are not implemented: no frame is recognised, and a broadcast sends nothing.
unfoldable pub websocket_frame_response_method : ℕ → Ptr → ℕ → Bool → ServerCmd Bool
websocket_frame_response_method pfd buffer size failed_req = pure false

unfoldable pub websocket_broadcast : List ℕ → Ptr → ℕ → ServerCmd ℤ
websocket_broadcast [] buffer size = pure (pos 1)
websocket_broadcast (pfd ∷ container) buffer size = websocket_broadcast container buffer size

unfoldable pub start : ServerCmd (Unit {0})
unfolding emit
start = emit event_manager_start

unfoldable pub stop : ServerCmd (Unit {0})
unfolding emit
stop = emit event_manager_kill
