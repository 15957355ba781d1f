-- ===== src/Server/Callbacks/Accepting.antt =====
-- A new connection: its task, its first read, and the next accept.
use network_server.Base.{
  ℕ, ◌≡◌, refl, true, false, List, [], ◌∷◌, ◌++◌, length, ◌==◌, pos, is_neg, size_max, ok,
  get_elem?-append_self,
}
use network_server.Lru.{Ptr, null}
use network_server.Server.{
  OperationType, Task, default_task, Server, Env, Event, read_size, submit_all_queued_sqes,
  submit_read, submit_accept, close_pfd, free, malloc,
}
use network_server.Server.Tasks.Fresh.{get_task_buff_op-ok, with_buffer-real}
use network_server.Server.Callbacks.{accept_callback}

abbrev pub network_task : Ptr → Task
network_task b = record default_task {
  op_type = OperationType.network_read;
  buff = b;
  buff_length = read_size;
}

module _ (env : Env) (listener_pfd pfd : ℕ) (s : Server) where
  abbrev allocating : List Event
  allocating = malloc read_size ∷ submit_all_queued_sqes ∷ s.trace

  -- The buffer of the connection, and the calls of its first read.
  abbrev pub connection_buffer : Ptr
  connection_buffer = env.address allocating

  abbrev pub first_read : List Event
  first_read = submit_read pfd connection_buffer read_size (length s.task_data) ∷ allocating

  -- The connection is read, or it was closed; then the next accept is submitted.
  abbrev pub listens_after : List Event → Server
  listens_after calls = record s {
    task_data = s.task_data ++ network_task connection_buffer ∷ [];
    trace = submit_accept listener_pfd ∷ calls;
  }

  abbrev pub connected : Server
  connected = listens_after first_read

  abbrev pub dropped : Server
  dropped = listens_after (close_pfd pfd size_max ∷ free connection_buffer ∷ first_read)

  module _ (errno result : ℕ) (fresh : s.task_freed_idxs ≡ [])
      (real : connection_buffer == null ≡ false) where
    pub accept_callback-connected :
        is_neg (env.answer first_read) ≡ false
        → is_neg (env.answer (submit_accept listener_pfd ∷ first_read)) ≡ false
        → accept_callback env errno listener_pfd pfd (pos result) s ≡ ok tt connected
    unfolding accept_callback
    accept_callback-connected reads accepts =
        let u = record s { trace = allocating } in
        rw
          (
            get_task_buff_op-ok u fresh OperationType.network_read connection_buffer read_size,
            with_buffer-real OperationType.network_read connection_buffer read_size real,
            get_elem?-append_self s.task_data (network_task connection_buffer),
            reads,
            accepts,
            accept_callback,
          )
          refl

    -- The first read of a new connection cannot be submitted, and the next accept can: the buffer is
    -- freed and the connection closed, the server listens on, and the task stays in the table with
    -- the address of the freed buffer, its id not given back. Allocations succeed and no task id is
    -- free for use.
    pub accept_callback-dropped :
        is_neg (env.answer first_read) ≡ true
        → is_neg (env.answer dropped.trace) ≡ false
        → accept_callback env errno listener_pfd pfd (pos result) s ≡ ok tt dropped
    unfolding accept_callback
    accept_callback-dropped refused accepts =
        let u = record s { trace = allocating } in
        rw
          (
            get_task_buff_op-ok u fresh OperationType.network_read connection_buffer read_size,
            with_buffer-real OperationType.network_read connection_buffer read_size real,
            get_elem?-append_self s.task_data (network_task connection_buffer),
            refused,
            accepts,
            accept_callback,
          )
          refl
