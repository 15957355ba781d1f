-- ===== src/Server.antt =====
-- network_server.hpp: the server's state, the tasks, and the calls that it makes. What lies outside
-- (the event manager, the kernel, the C library's heap and the application) is an `Env` that answers
-- each call by the history of calls up to it.
pub mod Tasks
pub mod Client
pub mod Vectors
pub mod SendFile
pub mod Callbacks
pub mod Requests
pub mod Reads
pub mod Start
use network_server.Base.{
  ℕ, Bool, List, [], ◌∷◌, get_elem?, set, ℤ, size_max, ◌==◌, if◌then◌else◌, Bytes, Cmd, ok, fault,
  exited, length, ◌>>=◌, or_fault,
}
use network_server.Lru.{Ptr, null}
use network_server.Lru.Spec.{Shelf}
use network_server.Ranges.{Range}
use network_server.Request.{HttpRequest}

-- `READ_SIZE`.
abbrev pub read_size : ℕ
read_size = 4096

pub data OperationType : Type 0 where
  inotify_read network_read websocket_read raw_read raw_readv event_read : OperationType
  websocket_write websocket_writev http_write http_writev http_send_file : OperationType
  http_post_read raw_write raw_writev websocket_close http_close raw_close : OperationType

-- `struct iovec`.
pub record Iovec : Type 0 where
  pub iov_base : Ptr
  pub iov_len : ℕ

-- `struct task`.
pub record Task : Type 0 where
  pub op_type : OperationType
  pub buff : Ptr
  pub buff_length : ℕ
  pub progress : ℕ
  pub iovs : Ptr
  pub num_iovecs : ℕ
  pub write_ranges : List Range
  pub write_ranges_idx : ℕ
  pub filepath : Bytes
  pub additional_ptr : Ptr
  pub for_client_num : ℕ

-- `task()`: the member initialisers, and the first enumerator for `operation_type{}`.
abbrev pub default_task : Task
default_task = record {
  op_type = inotify_read;
  buff = null;
  buff_length = size_max;
  progress = 0;
  iovs = null;
  num_iovecs = size_max;
  write_ranges = [];
  write_ranges_idx = 0;
  filepath = [];
  additional_ptr = null;
  for_client_num = size_max;
}

-- The application's callbacks, `application_methods`; the last argument is `failed_req`.
pub data Callback : Type 0 where
  event_trigger : (pfd info : ℕ) → Bool → Callback
  raw_read_done : (buffer : Ptr) → (size pfd : ℕ) → Bool → Callback
  raw_readv_done : (iovs : Ptr) → (num_iovecs pfd : ℕ) → Bool → Callback
  raw_write_done : (buffer : Ptr) → (size pfd : ℕ) → Bool → Callback
  raw_writev_done : (iovs : Ptr) → (num_iovecs pfd : ℕ) → Bool → Callback
  raw_closed : (pfd : ℕ) → Callback
  websocket_write_done : (buffer : Ptr) → (size pfd : ℕ) → Bool → Callback
  websocket_writev_done : (iovs : Ptr) → (num_iovecs pfd : ℕ) → Bool → Callback
  websocket_closed : (pfd : ℕ) → Callback
  http_read_done : HttpRequest → (pfd : ℕ) → Bool → Callback
  http_write_done : (buffer : Ptr) → (size pfd : ℕ) → Bool → Callback
  http_writev_done : (iovs : Ptr) → (num_iovecs pfd : ℕ) → Bool → Callback
  http_closed : (pfd : ℕ) → Callback

-- The options that the listener sets on a socket.
pub data SocketOption : Type 0 where
  reuse_addr reuse_port keep_alive keep_idle keep_interval keep_count : SocketOption

-- The calls that leave the program: those of the event manager, of the C library and kernel, and
-- the application's callbacks.
pub data Event : Type 0 where
  submit_read : (pfd : ℕ) → (buffer : Ptr) → (length task_id : ℕ) → Event
  submit_write : (pfd : ℕ) → (buffer : Ptr) → (length task_id : ℕ) → Event
  submit_readv : (pfd : ℕ) → (iovs : Ptr) → (num_iovecs task_id : ℕ) → Event
  submit_writev : (pfd : ℕ) → (iovs : Ptr) → (num_iovecs task_id : ℕ) → Event
  submit_accept : (pfd : ℕ) → Event
  submit_generic_event : (pfd info : ℕ) → Event
  submit_all_queued_sqes : Event
  close_pfd : (pfd task_id : ℕ) → Event
  pass_fd : ℤ → Event
  create_event_fd event_manager_start event_manager_kill : Event
  event_alert : (pfd : ℕ) → Event
  is_dying_or_dead : Event
  fatal_error : Event
  open_file : Bytes → Event
  file_size : ℤ → Event
  add_watch : Bytes → Event
  malloc : (size : ℕ) → Event
  free : Ptr → Event
  fill : Ptr → Bytes → Event
  copy : (destination source : Ptr) → (size : ℕ) → Event
  clear : Ptr → (size : ℕ) → Event
  ignore_sigpipe set_callbacks : Event
  get_addr_info : (port : ℕ) → Event
  open_socket : (address : ℕ) → Event
  set_socket_option : ℤ → SocketOption → (value : ℕ) → Event
  bind_socket : ℤ → (address : ℕ) → Event
  free_addr_info : Event
  listen : ℤ → (backlog : ℕ) → Event
  callback : Callback → Event

-- `arrays` holds the contents of the arrays of iovecs; `trace` lists the calls, newest first.
pub record Server : Type 0 where
  pub task_data : List Task
  pub task_freed_idxs : List ℕ
  pub cache : Shelf
  pub arrays : Ptr → List Iovec
  pub trace : List Event

-- `answer` is the `int` that the newest call returns, `address` the pointer of an allocation, and
-- `amount` a size. `bytes` are those of so many that lie at an address, and `inotify_event` is the
-- mask and the watch of the event at an address. `addresses` are those that getaddrinfo lists. An application's callback may use the server again:
-- `app` is what it does.
pub record Env : Type 0 where
  pub answer : List Event → ℤ
  pub address : List Event → Ptr
  pub amount : List Event → ℕ
  pub addresses : List Event → List ℕ
  pub bytes : List Event → Ptr → ℕ → Bytes
  pub inotify_event : List Event → Ptr → ℕ × ℤ
  pub app : Callback → Server → Server

abbrev pub ServerCmd : Type 0 → Type 0
ServerCmd A = Cmd Server A

unfoldable pub emit : Event → ServerCmd (Unit {0})
emit e s = ok tt (record s { trace = e ∷ s.trace })

-- `FATAL_ERROR`: the message of `fatal_error` is printed and the program exits.
unfoldable pub fatal : ServerCmd (Unit {0})
fatal s = exited (record s { trace = fatal_error ∷ s.trace })

-- A task that does not exist is undefined behaviour.
unfoldable pub task_at : ℕ → ServerCmd Task
task_at id s = or_fault (get_elem? s.task_data id) s

unfoldable pub count_tasks : ServerCmd ℕ
count_tasks s = ok (length s.task_data) s

-- A reference to a task, taken when the vector had `count` elements. Since then a callback may have
-- made the vector grow, and so move: using the reference is then undefined behaviour.
unfoldable pub task_through : (count id : ℕ) → ServerCmd Task
task_through count id s =
    if length s.task_data == count then or_fault (get_elem? s.task_data id) s else fault

unfoldable pub set_task : ℕ → Task → ServerCmd (Unit {0})
set_task id t s = ok tt (record s { task_data = set s.task_data id t })

unfoldable pub modify_task : ℕ → (Task → Task) → ServerCmd (Unit {0})
unfolding task_at set_task
modify_task id f = do t ← task_at id; set_task id (f t)

abbrev pub update_array : (Ptr → List Iovec) → Ptr → List Iovec → Ptr → List Iovec
update_array m p v q = if q == p then v else m q

unfoldable pub write_array : Ptr → List Iovec → ServerCmd (Unit {0})
write_array p v s = ok tt (record s { arrays = update_array s.arrays p v })

unfoldable pub read_array : Ptr → ServerCmd (List Iovec)
read_array p s = ok (s.arrays p) s

module _ (env : Env) where
  -- A call whose `int` result is used.
  unfoldable pub ask : Event → ServerCmd ℤ
  ask e s = ok (env.answer (e ∷ s.trace)) (record s { trace = e ∷ s.trace })

  unfoldable pub ask_amount : Event → ServerCmd ℕ
  ask_amount e s = ok (env.amount (e ∷ s.trace)) (record s { trace = e ∷ s.trace })

  -- MALLOC.
  unfoldable pub allocate : ℕ → ServerCmd Ptr
  allocate size s =
      ok (env.address (malloc size ∷ s.trace)) (record s { trace = malloc size ∷ s.trace })

  unfoldable pub call_back : Callback → ServerCmd (Unit {0})
  call_back c s = ok tt (env.app c (record s { trace = callback c ∷ s.trace }))
