-- ===== src/Server/Callbacks.antt =====
-- src/callbacks/: what the server does when the event manager reports the end of an operation.
-- `errno` is its value when the callback begins, and `result` is `op_res_num`.
pub mod VectorProgress
pub mod WriteProgress
pub mod Closing
pub mod Accepting
use network_server.Base.{
  ℕ, ◌+◌, ◌^◌, ◌-◌, Bool, true, false, not, ◌&&◌, ◌||◌, List, [], ◌∷◌, ltb, leb, ◌==◌,
  if◌then◌else◌, ℤ, pos, is_neg, int_eq, to_size, add_size, sub_size, size_max, take, ok, pure,
  ◌>>=◌, ◌>>◌,
}
use network_server.Lru.{Ptr, null}
use network_server.Server.{
  OperationType, Task, Env, ServerCmd, Callback, read_size, submit_read, submit_write, submit_readv,
  submit_writev, submit_accept, submit_generic_event, submit_all_queued_sqes, close_pfd,
  is_dying_or_dead, fatal, count_tasks, task_through, free, event_trigger, raw_readv_done,
  raw_write_done, raw_writev_done, raw_closed, websocket_write_done, websocket_writev_done,
  websocket_closed, http_write_done, http_writev_done, http_closed, emit, task_at, modify_task,
  read_array, ask, allocate, call_back,
}
use network_server.Server.Tasks.{get_task_buff_op, free_task}
use network_server.Server.Vectors.{vector_ops_progress, total_length}
use network_server.Server.SendFile.{writev_finish, writev_continue}

abbrev pub eintr : ℕ
eintr = 4

abbrev pub econnaborted : ℕ
econnaborted = 103

module _ (env : Env) where
  -- Which of the application's close callbacks an operation's task calls.
  unfoldable pub close_notice : OperationType → ℕ → ServerCmd (Unit {0})
  unfolding call_back
  close_notice OperationType.network_read pfd = call_back env (http_closed pfd)
  close_notice OperationType.http_write pfd = call_back env (http_closed pfd)
  close_notice OperationType.http_writev pfd = call_back env (http_closed pfd)
  close_notice OperationType.http_close pfd = call_back env (http_closed pfd)
  close_notice OperationType.http_send_file pfd = call_back env (http_closed pfd)
  close_notice OperationType.http_post_read pfd = call_back env (http_closed pfd)
  close_notice OperationType.websocket_read pfd = call_back env (websocket_closed pfd)
  close_notice OperationType.websocket_write pfd = call_back env (websocket_closed pfd)
  close_notice OperationType.websocket_writev pfd = call_back env (websocket_closed pfd)
  close_notice OperationType.websocket_close pfd = call_back env (websocket_closed pfd)
  close_notice OperationType.raw_read pfd = call_back env (raw_closed pfd)
  close_notice OperationType.raw_write pfd = call_back env (raw_closed pfd)
  close_notice OperationType.raw_writev pfd = call_back env (raw_closed pfd)
  close_notice OperationType.raw_close pfd = call_back env (raw_closed pfd)
  close_notice OperationType.raw_readv pfd = call_back env (raw_closed pfd)
  close_notice OperationType.inotify_read pfd = pure tt
  close_notice OperationType.event_read pfd = pure tt

  -- A task id that is negative as an `int64_t` stands for none. The source compares the id with
  -- `-1u`, the largest `unsigned int`.
  unfoldable pub application_close_callback : ℕ → ℕ → ServerCmd (Unit {0})
  unfolding close_notice task_at free_task
  application_close_callback pfd task_id = if leb (2 ^ 63) task_id then pure tt else do
    t ← task_at task_id
    close_notice t.op_type pfd
    if task_id == 2 ^ 32 - 1 then pure tt else free_task task_id

  unfoldable pub close_callback : ℕ → ℤ → ℕ → ServerCmd (Unit {0})
  unfolding application_close_callback
  close_callback pfd result task_id = application_close_callback pfd task_id

  unfoldable pub event_callback : ℕ → ℕ → ℤ → ℕ → ServerCmd (Unit {0})
  unfolding ask emit call_back
  event_callback errno pfd result info =
      if is_neg result
      then if errno == eintr
        then (do
          again ← ask env (submit_generic_event pfd info)
          if is_neg again then call_back env (event_trigger pfd info true) else pure tt
          call_back env (event_trigger pfd info false))
        else (do emit (close_pfd pfd info); call_back env (event_trigger pfd info true))
      else call_back env (event_trigger pfd info false)

  unfoldable pub dying : ServerCmd Bool
  unfolding ask
  dying = do a ← ask env is_dying_or_dead; pure (not (int_eq a (pos 0)))

  unfoldable pub accept_failed : ℕ → ℕ → ℕ → ServerCmd (Unit {0})
  unfolding ask emit dying fatal
  accept_failed errno listener_pfd pfd =
      if errno == econnaborted || errno == eintr
      then (do
        again ← ask env (submit_accept listener_pfd)
        if is_neg again then fatal else pure tt)
      else (do dead ← dying; if dead then pure tt else fatal; emit (close_pfd pfd size_max))

  unfoldable pub accept_callback : ℕ → ℕ → ℕ → ℤ → ServerCmd (Unit {0})
  unfolding ask emit dying fatal accept_failed allocate get_task_buff_op free_task task_at
  accept_callback errno listener_pfd pfd result = do
    emit submit_all_queued_sqes
    if is_neg result then accept_failed errno listener_pfd pfd else do
      buff ← allocate env read_size
      user_task_id ← get_task_buff_op OperationType.network_read buff read_size
      t ← task_at user_task_id
      submitted ← ask env (submit_read pfd t.buff t.buff_length user_task_id)
      if not (is_neg submitted)
          then pure tt
          else do emit (free buff); free_task user_task_id; emit (close_pfd pfd size_max)
      again ← ask env (submit_accept listener_pfd)
      if not (is_neg again) then pure tt else do dead ← dying; if dead then pure tt else fatal

  -- The switch of `write_callback` on a write that failed.
  unfoldable pub write_error : OperationType → Ptr → ℕ → ℕ → ℕ → ServerCmd (Unit {0})
  unfolding call_back emit
  write_error OperationType.http_write buff size pfd task_id = do
    call_back env (http_write_done buff size pfd true)
    emit (close_pfd pfd task_id)
  write_error OperationType.raw_write buff size pfd task_id =
      call_back env (raw_write_done buff size pfd true)
  write_error OperationType.websocket_write buff size pfd task_id =
      call_back env (websocket_write_done buff size pfd true)
  write_error _ buff size pfd task_id = pure tt

  unfoldable pub write_finished : OperationType → Ptr → ℕ → ℕ → ℕ → ServerCmd (Unit {0})
  unfolding call_back emit
  write_finished OperationType.http_write buff size pfd task_id = do
    call_back env (http_write_done buff size pfd false)
    emit (close_pfd pfd task_id)
  write_finished OperationType.raw_write buff size pfd task_id =
      call_back env (raw_write_done buff size pfd false)
  write_finished OperationType.websocket_write buff size pfd task_id =
      call_back env (websocket_write_done buff size pfd false)
  write_finished _ buff size pfd task_id = pure tt

  -- What follows the error switch: after an interrupted write the source comes here too, with a
  -- negative result.
  unfoldable pub write_progress : ℕ → ℕ → ℤ → ServerCmd (Unit {0})
  unfolding task_at modify_task ask write_finished free_task
  write_progress pfd task_id result = do
    t ← task_at task_id
    let total_progress = add_size t.progress (to_size result)
    if ltb total_progress t.buff_length
        then (do
          modify_task task_id λ t. record t { progress = total_progress }
          ask env
              (submit_write pfd (t.buff + total_progress) (t.buff_length - total_progress) task_id)
          pure tt)
        else (do write_finished t.op_type t.buff total_progress pfd task_id; free_task task_id)

  -- `buff` and `len` are those of the operation that ended.
  unfoldable pub write_callback : ℕ → ℕ → ℕ → Ptr → ℕ → ℤ → ServerCmd (Unit {0})
  unfolding task_at ask emit write_error write_progress
  write_callback errno pfd task_id buff len result = do
    t ← task_at task_id
    if not (is_neg result)
        then write_progress pfd task_id result
        else if errno == eintr
        then (do ask env (submit_write pfd buff len task_id); write_progress pfd task_id result)
        else (do write_error t.op_type t.buff t.progress pfd task_id; emit (close_pfd pfd task_id))

  unfoldable pub readv_failed : ℕ → ℕ → ServerCmd (Unit {0})
  unfolding task_at emit call_back count_tasks task_through
  readv_failed pfd task_id = do
    t ← task_at task_id
    count ← count_tasks
    call_back env (raw_readv_done t.buff t.num_iovecs pfd true)
    emit (close_pfd pfd task_id)
    t ← task_through count task_id
    emit (free t.iovs)

  unfoldable pub readv_callback : ℕ → ℕ → ℕ → Ptr → ℕ → ℤ → ServerCmd (Unit {0})
  unfolding task_at ask emit call_back read_array readv_failed vector_ops_progress total_length
      count_tasks task_through
  readv_callback errno pfd task_id iovs num_vecs result = do
    t ← task_at task_id
    if is_neg result
        then if errno == eintr
          then (do ask env (submit_readv pfd iovs num_vecs task_id); pure tt)
          else readv_failed pfd task_id
        else (do
          original ← read_array t.buff
          let total_progress = add_size t.progress (to_size result)
          if leb (total_length 0 (take t.num_iovecs original)) total_progress
              then (do
                count ← count_tasks
                call_back env (raw_readv_done t.buff t.num_iovecs pfd false)
                emit (close_pfd pfd task_id)
                t ← task_through count task_id
                emit (free t.iovs))
              else (do
                vector_ops_progress task_id result total_progress
                ask env (submit_readv pfd t.iovs t.num_iovecs task_id)
                pure tt))

  -- A vector write that failed: the application is told, and the copy of the vectors is freed.
  unfoldable pub tell_and_free : Callback → ℕ → ServerCmd (Unit {0})
  unfolding call_back emit count_tasks task_through
  tell_and_free c task_id = do
    count ← count_tasks
    call_back env c
    t ← task_through count task_id
    emit (free t.iovs)

  unfoldable pub writev_error : OperationType → Ptr → ℕ → ℕ → ℕ → ServerCmd (Unit {0})
  unfolding tell_and_free writev_finish
  writev_error OperationType.http_send_file iovs n pfd task_id = writev_finish env pfd task_id true
  writev_error OperationType.http_writev iovs n pfd task_id =
      tell_and_free (http_writev_done iovs n pfd true) task_id
  writev_error OperationType.raw_writev iovs n pfd task_id =
      tell_and_free (raw_writev_done iovs n pfd true) task_id
  writev_error OperationType.websocket_writev iovs n pfd task_id =
      tell_and_free (websocket_writev_done iovs n pfd true) task_id
  writev_error _ iovs n pfd task_id = pure tt

  -- `count` is the number of tasks when the callback took its reference to the task.
  unfoldable pub free_copy : (count task_id : ℕ) → ServerCmd (Unit {0})
  unfolding task_through emit modify_task
  free_copy count task_id = do
    t ← task_through count task_id
    emit (free t.iovs)
    modify_task task_id λ t. record t { iovs = null }

  unfoldable pub tell_and_free_copy : Callback → ServerCmd (Unit {0}) → ℕ → ServerCmd (Unit {0})
  unfolding call_back count_tasks free_copy
  tell_and_free_copy c close task_id = do
    count ← count_tasks
    call_back env c
    close
    free_copy count task_id

  unfoldable pub writev_finished : OperationType → Ptr → ℕ → ℕ → ℕ → ServerCmd (Unit {0})
  unfolding tell_and_free_copy emit count_tasks free_copy writev_continue
  writev_finished OperationType.http_send_file iovs n pfd task_id = writev_continue env pfd task_id
  writev_finished OperationType.http_writev iovs n pfd task_id =
      tell_and_free_copy (http_writev_done iovs n pfd false) (emit (close_pfd pfd task_id)) task_id
  writev_finished OperationType.raw_writev iovs n pfd task_id =
      tell_and_free_copy (raw_writev_done iovs n pfd false) (pure tt) task_id
  writev_finished OperationType.websocket_writev iovs n pfd task_id =
      tell_and_free_copy (websocket_writev_done iovs n pfd false) (pure tt) task_id
  writev_finished _ iovs n pfd task_id = do count ← count_tasks; free_copy count task_id

  unfoldable pub writev_callback : ℕ → ℕ → ℕ → Ptr → ℕ → ℤ → ServerCmd (Unit {0})
  unfolding task_at ask emit read_array writev_error writev_finished vector_ops_progress
      total_length
  writev_callback errno pfd task_id iovs num_vecs result = do
    t ← task_at task_id
    if is_neg result
        then if errno == eintr
          then (do ask env (submit_writev pfd iovs num_vecs task_id); pure tt)
          else (do
            writev_error t.op_type t.buff t.num_iovecs pfd task_id
            emit (close_pfd pfd task_id))
        else (do
          original ← read_array t.buff
          let total_progress = add_size t.progress (to_size result)
          if leb (total_length 0 (take t.num_iovecs original)) total_progress
              then writev_finished t.op_type t.buff t.num_iovecs pfd task_id
              else (do
                vector_ops_progress task_id result total_progress
                ask env (submit_writev pfd t.iovs t.num_iovecs task_id)
                pure tt))
