-- ===== src/Server/Reads.antt =====
-- src/callbacks/read.cpp: what the server does when a read ends. `errno` is its value when the
-- callback begins; `buff`, `len` and `result` are those of the operation that ended.
pub mod Parts
pub mod Network
pub mod Post
pub mod Body
pub mod Whole
pub mod Protocol
pub mod Conversation
pub mod File
use network_server.Base.{
  ℕ, ◌+◌, ◌-◌, Bool, true, false, not, ◌&&◌, ◌||◌, Option, none, some, [], ltb, ◌==◌, if◌then◌else◌,
  ℤ, pos, is_neg, int_eq, to_size, add_size, ok, pure, modify, ◌>>=◌, ◌>>◌,
}
use network_server.Lru.{Ptr, null}
use network_server.Lru.Spec
use network_server.Server.{
  OperationType, Task, Server, Env, ServerCmd, submit_read, close_pfd, free, clear, raw_read_done,
  emit, task_at, modify_task, ask, call_back,
}
use network_server.Server.Tasks.{free_task}
use network_server.Server.SendFile.{writev_submit, read_failed}
use network_server.Server.Callbacks.{eintr}
use network_server.Server.Requests.{network_read_procedure}

-- The reads into a buffer that the server allocated.
abbrev pub owns_buffer : OperationType → Bool
owns_buffer OperationType.inotify_read = true
owns_buffer OperationType.network_read = true
owns_buffer OperationType.http_post_read = true
owns_buffer _ = false

module _ (env : Env) where
  unfoldable pub read_failure : OperationType → ℕ → Ptr → ℕ → ℕ → ServerCmd (Unit {0})
  unfolding read_failed call_back network_read_procedure
  read_failure OperationType.http_send_file pfd buff progress task_id = read_failed env pfd task_id
  read_failure OperationType.raw_read pfd buff progress task_id =
      call_back env (raw_read_done buff progress pfd false)
  read_failure OperationType.network_read pfd buff progress task_id = do
    network_read_procedure env pfd task_id none true null 0
    pure tt
  read_failure _ pfd buff progress task_id = pure tt

  unfoldable pub read_error : ℕ → ℕ → Ptr → ServerCmd (Unit {0})
  unfolding read_failure task_at emit
  read_error pfd task_id buff = do
    t ← task_at task_id
    read_failure t.op_type pfd buff t.progress task_id
    t ← task_at task_id
    if owns_buffer t.op_type then emit (free t.buff) else pure tt
    emit (close_pfd pfd task_id)

  -- A read of no bytes: the end of a file, or a closed connection.
  unfoldable pub read_ended : ℕ → ℕ → ServerCmd (Unit {0})
  unfolding task_at modify_task emit writev_submit read_failed
  read_ended pfd task_id = do
    t ← task_at task_id
    if owns_buffer t.op_type
        then (do emit (free t.buff); modify_task task_id λ t. record t { buff = null })
        else pure tt
    elim t.op_type [
      | OperationType.http_send_file ↦
          if t.progress == t.buff_length
          then writev_submit env pfd task_id
          else do read_failed env pfd task_id; emit (close_pfd pfd task_id)
      | _ ↦ emit (close_pfd pfd task_id)
    ]

  -- The task reads again, into its whole buffer, or it is over. The task of a POST body becomes one
  -- of a network read.
  unfoldable pub resubmit_or_free : Bool → ℕ → ℕ → Option Bool → ServerCmd (Unit {0})
  unfolding task_at modify_task emit ask free_task
  resubmit_or_free converts pfd task_id (some true) = do
    modify_task task_id λ t. record t {
      progress = 0;
      op_type = if converts then OperationType.network_read else t.op_type;
    }
    t ← task_at task_id
    emit (clear t.buff t.buff_length)
    ask env (submit_read pfd t.buff t.buff_length task_id)
    pure tt
  resubmit_or_free converts pfd task_id _ = do
    t ← task_at task_id
    emit (free t.buff)
    free_task task_id

  unfoldable pub request_read : Bool → ℕ → ℕ → Ptr → ℕ → ServerCmd (Unit {0})
  unfolding network_read_procedure resubmit_or_free
  request_read converts pfd task_id buffer size = do
    flag ← network_read_procedure env pfd task_id (some false) false buffer size
    resubmit_or_free converts pfd task_id flag

  -- A read that is complete, of a file, a POST body or raw data.
  unfoldable pub read_complete : OperationType → ℕ → ℕ → Ptr → ℕ → ServerCmd (Unit {0})
  unfolding writev_submit request_read call_back free_task
  read_complete OperationType.http_send_file pfd task_id buff total = writev_submit env pfd task_id
  read_complete OperationType.http_post_read pfd task_id buff total =
      request_read true pfd task_id buff total
  read_complete _ pfd task_id buff total = do
    call_back env (raw_read_done buff total pfd false)
    free_task task_id

  unfoldable pub read_part : ℕ → ℕ → ℤ → ServerCmd (Unit {0})
  unfolding task_at modify_task ask read_complete
  read_part pfd task_id result = do
    t ← task_at task_id
    let total_progress = add_size t.progress (to_size result)
    if ltb total_progress t.buff_length
        then (do
          ask env
              (submit_read pfd (t.buff + total_progress) (t.buff_length - total_progress) task_id)
          modify_task task_id λ t. record t { progress = total_progress })
        else read_complete t.op_type pfd task_id t.buff total_progress

  -- A change of a cached file, and the next read.
  unfoldable pub inotify_read : ℕ → ℕ → ServerCmd (Unit {0})
  unfolding task_at modify_task emit ask
  inotify_read pfd task_id = do
    t ← task_at task_id
    modify λ s. record s {
      cache =
          Spec.process_event
            (if t.buff == null then none else some (env.inotify_event s.trace t.buff)) s.cache;
    }
    emit (clear t.buff t.buff_length)
    submitted ← ask env (submit_read pfd t.buff t.buff_length task_id)
    if is_neg submitted then emit (free t.buff) else pure tt

  unfoldable pub read_data : OperationType → ℕ → ℕ → Ptr → ℤ → ServerCmd (Unit {0})
  unfolding read_part request_read inotify_read task_at emit
  read_data OperationType.http_send_file pfd task_id buff result = read_part pfd task_id result
  read_data OperationType.http_post_read pfd task_id buff result = read_part pfd task_id result
  read_data OperationType.raw_read pfd task_id buff result = read_part pfd task_id result
  read_data OperationType.network_read pfd task_id buff result = do
    t ← task_at task_id
    request_read false pfd task_id buff (add_size (to_size result) t.progress)
  read_data OperationType.inotify_read pfd task_id buff result = inotify_read pfd task_id
  read_data _ pfd task_id buff result = emit (close_pfd pfd task_id)

  unfoldable pub read_callback : ℕ → ℕ → ℕ → Ptr → ℕ → ℤ → ServerCmd (Unit {0})
  unfolding ask read_error read_ended read_data task_at
  read_callback errno pfd task_id buff len result =
      if is_neg result
      then if errno == eintr
        then (do
          again ← ask env (submit_read pfd buff len task_id)
          if is_neg again then read_error pfd task_id buff else pure tt)
        else read_error pfd task_id buff
      else if int_eq result (pos 0)
      then read_ended pfd task_id
      else (do t ← task_at task_id; read_data t.op_type pfd task_id buff result)
