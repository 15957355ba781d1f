-- ===== src/Server/Tasks.antt =====
-- src/core.cpp: the table of tasks.
pub mod Fresh
use network_server.Base.{
  ℕ, ◌*◌, Bool, List, [], ◌∷◌, ◌++◌, ◌==◌, if◌then◌else◌, length, take, ok, pure, ◌>>=◌, ◌>>◌,
}
use network_server.Lru.{Ptr, null}
use network_server.Server.{
  OperationType, Task, default_task, Server, Env, ServerCmd, Iovec, modify_task, allocate,
  read_array, write_array,
}

-- A freed id is used again, the smallest first, with a fresh task; otherwise the table grows.
unfoldable pub get_task : ServerCmd ℕ
unfolding modify_task
get_task s = elim s.task_freed_idxs [
  | [] ↦ ok (length s.task_data) (record s { task_data = s.task_data ++ default_task ∷ [] })
  | id ∷ rest ↦
      (do modify_task id (λ _. default_task); pure id) (record s { task_freed_idxs = rest })
]

unfoldable pub with_buffer : OperationType → Ptr → ℕ → Task → Task
with_buffer type buff length t =
    if buff == null
    then record t { op_type = type }
    else record t { op_type = type; buff = buff; buff_length = length }

unfoldable pub get_task_buff_op : OperationType → Ptr → ℕ → ServerCmd ℕ
get_task_buff_op type buff length = do
  id ← get_task
  modify_task id (with_buffer type buff length)
  pure id

abbrev pub sizeof_iovec : ℕ
sizeof_iovec = 16

-- The task keeps the caller's array in `buff`, and a copy of it in `iovs`.
unfoldable pub get_task_vector_op : Env → OperationType → Ptr → ℕ → ServerCmd ℕ
unfolding allocate read_array write_array
get_task_vector_op env type iovecs num_iovecs = do
  id ← get_task
  modify_task id (λ t. record t { op_type = type })
  if iovecs == null then pure id else do
    copy ← allocate env (num_iovecs * sizeof_iovec)
    original ← read_array iovecs
    write_array copy (take num_iovecs original)
    modify_task id (λ t. record t { buff = iovecs; num_iovecs = num_iovecs; iovs = copy })
    pure id

-- The body only prints: no id is given back.
unfoldable pub free_task : ℕ → ServerCmd (Unit {0})
free_task task_id = pure tt
