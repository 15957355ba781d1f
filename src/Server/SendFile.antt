-- ===== src/Server/SendFile.antt =====
-- src/http_send_file.cpp: a file is taken from the cache or read, and written with its header.
pub mod Answers
pub mod Finish
pub mod Cached
pub mod Parts
use network_server.Base.{
  ℕ, ◌+◌, ◌*◌, Bool, true, false, not, ◌&&◌, Option, none, some, List, [], ◌∷◌, ltb, ◌==◌,
  if◌then◌else◌, ℤ, pos, negsuc, is_neg, sub_size, to_size, size_max, Bytes, codes, length,
  get_elem?, ok, pure, ◌>>=◌, ◌>>◌, read, modify, or_fault,
}
use network_server.Lru.{Ptr, null, Item}
use network_server.Lru.Spec
use network_server.Ranges.{Range, get_ranges}
use network_server.Response.{
  http_10, resp_200_ok, resp_206_partial, resp_416_unsatisfiable_range, sized_response,
  range_response, allocate_buffer, response_length, get_type_from_filename,
}
use network_server.Server.{
  OperationType, http_send_file, Task, Iovec, Server, Env, ServerCmd, submit_read, submit_writev,
  close_pfd, pass_fd, open_file, file_size, add_watch, free, fill, callback, http_writev_done, emit,
  task_at, modify_task, write_array, read_array, ask, ask_amount, allocate, call_back,
}
use network_server.Server.Tasks.{get_task, get_task_buff_op, free_task, sizeof_iovec}
use network_server.Server.Client.{raw_close, http_write}

unfoldable pub is_using_ranges : Task → Bool
is_using_ranges t =
    not (length t.write_ranges == 0) && ltb t.write_ranges_idx (length t.write_ranges)

abbrev pub iovec : Ptr → ℕ → Iovec
iovec base len = record { iov_base = base; iov_len = len }

-- The operations of the cache, by their specification. A new item's watch is the answer to
-- `inotify_add_watch`.
unfoldable pub cache_unlock : Bytes → ServerCmd (Unit {0})
cache_unlock name = modify λ s. record s { cache = Spec.unlock name s.cache }

unfoldable pub cache_get_and_lock : Bytes → ServerCmd (Option Item)
cache_get_and_lock name s =
    let (shelf, item) = Spec.get_and_lock name s.cache in ok item (record s { cache = shelf })

module _ (env : Env) where
  unfoldable pub cache_add_or_update : Bytes → Ptr → ℕ → ServerCmd Bool
  cache_add_or_update name buff len s =
      let wd = env.answer (add_watch name ∷ s.trace) in
      let (shelf, added) = Spec.add_or_update name buff len wd s.cache in
      ok added (record s { cache = shelf })

  -- `allocate_buffer`, with the length of the text.
  unfoldable pub response_buffer : Bytes → ServerCmd (Ptr × ℕ)
  unfolding allocate emit
  response_buffer text = do
    buff ← allocate env (length text + 1)
    emit (fill buff (allocate_buffer text))
    pure (buff, response_length text)

  -- The header of a partial or of a full answer, and the part of the file that follows it.
  unfoldable pub current_response : Task → Bool → ServerCmd (Bytes × Iovec)
  current_response t using_ranges =
      if using_ranges
      then (do
        r ← or_fault (get_elem? t.write_ranges t.write_ranges_idx)
        pure (
          range_response resp_206_partial http_10 r (get_type_from_filename t.filepath)
              t.buff_length,
          iovec (t.buff + r.start) (sub_size r.end r.start),
        ))
      else pure (
        sized_response resp_200_ok http_10 (get_type_from_filename t.filepath) t.buff_length,
        iovec t.buff t.buff_length,
      )

  unfoldable pub writev_submit_helper : ℕ → ℕ → Bool → ServerCmd ℤ
  unfolding current_response response_buffer task_at modify_task write_array ask allocate
  writev_submit_helper task_id client_pfd using_ranges = do
    t ← task_at task_id
    (text, body) ← current_response t using_ranges
    (resp_data, resp_len) ← response_buffer text
    vecs ← allocate env (sizeof_iovec * 2)
    write_array vecs (iovec resp_data resp_len ∷ body ∷ [])
    copy ← allocate env (sizeof_iovec * 2)
    write_array copy (iovec resp_data resp_len ∷ body ∷ [])
    modify_task task_id λ t. record t {
      write_ranges_idx = t.write_ranges_idx + 1;
      buff = vecs;
      iovs = copy;
      num_iovecs = 2;
    }
    ask env (submit_writev client_pfd copy 2 task_id)

  unfoldable pub writev_submit : ℕ → ℕ → ServerCmd (Unit {0})
  unfolding writev_submit_helper raw_close is_using_ranges
  writev_submit pfd task_id = do
    t ← task_at task_id
    modify_task task_id λ t. record t { additional_ptr = t.buff; for_client_num = size_max }
    writev_submit_helper task_id t.for_client_num (is_using_ranges t)
    raw_close env pfd
    pure tt

  unfoldable pub read_failed : ℕ → ℕ → ServerCmd (Unit {0})
  unfolding task_at emit call_back
  read_failed pfd task_id = do
    t ← task_at task_id
    emit (free t.buff)
    call_back env (http_writev_done null 0 pfd true)

  -- The item is unlocked whether or not this request locked it, and the buffer that was read from
  -- the file goes to the cache or is freed.
  unfoldable pub writev_finish : ℕ → ℕ → Bool → ServerCmd (Unit {0})
  unfolding task_at modify_task read_array emit call_back cache_unlock cache_add_or_update
  writev_finish pfd task_id failed_req = do
    t ← task_at task_id
    original ← read_array t.buff
    header ← or_fault (get_elem? original 0)
    emit (free header.iov_base)
    emit (free t.buff)
    emit (free t.iovs)
    modify_task task_id λ t. record t { buff = null; iovs = null }
    cache_unlock t.filepath
    if t.additional_ptr == null then pure tt else do
      added ← cache_add_or_update t.filepath t.additional_ptr t.buff_length
      if added then pure tt else emit (free t.additional_ptr)
    call_back env (http_writev_done null 0 pfd false)

  -- The next range, or the end. `task.buff` is the array of iovecs here, and the source takes the
  -- body of the next range from it.
  unfoldable pub writev_continue : ℕ → ℕ → ServerCmd (Unit {0})
  unfolding writev_finish current_response response_buffer write_array ask allocate is_using_ranges
  writev_continue pfd task_id = do
    t ← task_at task_id
    if is_using_ranges t
        then (do
          original ← read_array t.buff
          (text, body) ← current_response t true
          (resp_data, resp_len) ← response_buffer text
          header ← or_fault (get_elem? original 0)
          emit (free header.iov_base)
          emit (free t.iovs)
          write_array t.buff (iovec resp_data resp_len ∷ body ∷ [])
          copy ← allocate env (sizeof_iovec * 2)
          write_array copy (iovec resp_data resp_len ∷ body ∷ [])
          modify_task task_id
              λ t. record t { write_ranges_idx = t.write_ranges_idx + 1; iovs = copy }
          ask env (submit_writev pfd copy t.num_iovecs task_id)
          pure tt)
        else (do writev_finish pfd task_id false; emit (close_pfd pfd task_id))

  unfoldable pub range_unsatisfiable_error_send : ℕ → ServerCmd (Unit {0})
  unfolding response_buffer http_write
  range_unsatisfiable_error_send client_num = do
    (buff, len) ←
        response_buffer (sized_response resp_416_unsatisfiable_range http_10 (codes "text/html") 0)
    http_write env client_num buff len
    pure tt

  abbrev pub is_valid : Option Bool → Bool
  is_valid none = false
  is_valid (some b) = b

  -- `range_str` is the Range header of the request.
  unfoldable pub send_cached_file : ℕ → Bytes → Bytes → ServerCmd ℤ
  unfolding cache_get_and_lock get_task_buff_op cache_unlock free_task
      range_unsatisfiable_error_send is_using_ranges writev_submit_helper
  send_cached_file client_num filepath range_str = do
    item ← cache_get_and_lock filepath
    elim item [
      | none ↦ pure (negsuc 0)
      | some x ↦ (do
        task_id ← get_task_buff_op http_send_file x.buff x.buff_length
        modify_task task_id λ t. record t { filepath = filepath }
        (ranges, valid_range) ← or_fault (get_ranges range_str x.buff_length true)
        modify_task task_id λ t. record t { write_ranges = ranges }
        if not (is_valid valid_range)
            then (do
              cache_unlock filepath
              free_task task_id
              range_unsatisfiable_error_send client_num
              pure (pos 0))
            else (do
              t ← task_at task_id
              writev_submit_helper task_id client_num (is_using_ranges t)))
    ]

  -- The file is open: read it, unless no valid range was found. Of a file that stands in for a
  -- missing one the ranges are not asked for, and `valid_range` stays false.
  unfoldable pub read_and_send : ℕ → Bytes → Bytes → Bool → ℤ → ServerCmd ℤ
  unfolding get_task modify_task free_task range_unsatisfiable_error_send ask ask_amount allocate
  read_and_send client_num filepath range_str file_not_found file_fd = do
    size ← ask_amount env (file_size file_fd)
    file_task_id ← get_task
    modify_task file_task_id λ t. record t {
      for_client_num = client_num;
      buff_length = size;
      filepath = filepath;
      op_type = http_send_file;
    }
    (ranges, valid_range) ←
        if file_not_found then pure ([], none) else or_fault (get_ranges range_str size true)
    modify_task file_task_id λ t. record t { write_ranges = ranges }
    file_pfd ← ask env (pass_fd file_fd)
    if not (is_valid valid_range)
        then (do
          emit (close_pfd (to_size file_pfd) size_max)
          free_task file_task_id
          range_unsatisfiable_error_send client_num
          pure (negsuc 0))
        else (do
          buff ← allocate env size
          modify_task file_task_id λ t. record t { buff = buff }
          ask env (submit_read (to_size file_pfd) buff size file_task_id))

  unfoldable pub send_file : ℕ → Bytes → Bytes → Bytes → ServerCmd ℤ
  unfolding send_cached_file read_and_send ask
  send_file client_num filepath not_found_filepath range_str = do
    sent ← send_cached_file client_num filepath range_str
    if not (is_neg sent) then pure sent else do
      file_fd ← ask env (open_file filepath)
      if not (is_neg file_fd) then read_and_send client_num filepath range_str false file_fd else do
        sent ← send_cached_file client_num not_found_filepath range_str
        if not (is_neg sent) then pure sent else do
          file_fd ← ask env (open_file not_found_filepath)
          if is_neg file_fd
              then pure file_fd
              else read_and_send client_num not_found_filepath range_str true file_fd
