-- ===== src/Server/Start/FirstReads.antt =====
-- The reads with which a server begins.
use network_server.Base.{ℕ, ◌≡◌, List, [], ◌∷◌, ◌++◌, length, ℤ, to_size, Run, ok, ◌>>=◌, ◌>>◌}
use network_server.Server.{
  OperationType, Task, default_task, Server, Env, Event, pass_fd, submit_read, SocketOption,
  set_socket_option, malloc,
}
use network_server.Server.Start.{inotify_size}

-- A run that only makes calls.
abbrev Traced : {A : Type 0} → Run Server A → Server → Type 0
Traced {A = A} run s = (a : A) × (calls : List Event) × (run ≡ ok a (record s { trace = calls }))

abbrev with_options : ℤ → List Event → List Event
with_options fd calls =
    set_socket_option fd SocketOption.keep_count 5
    ∷ set_socket_option fd SocketOption.keep_interval 100
    ∷ set_socket_option fd SocketOption.keep_idle 100
    ∷ set_socket_option fd SocketOption.keep_alive 1
    ∷ set_socket_option fd SocketOption.reuse_port 1
    ∷ set_socket_option fd SocketOption.reuse_addr 1
    ∷ calls

abbrev pub inotify_task : ℕ → Task
inotify_task buff = record default_task {
  op_type = OperationType.inotify_read;
  buff = buff;
  buff_length = inotify_size;
}

-- The state once the cache's descriptor was passed on and the first read of it was submitted.
abbrev pub inotify_reading : Env → ℤ → List Event → Server → Server
inotify_reading env inotify_fd calls s =
    let passed = pass_fd inotify_fd ∷ calls in
    let buff = env.address (malloc inotify_size ∷ passed) in
    record s {
      task_data = s.task_data ++ inotify_task buff ∷ [];
      trace =
          submit_read (to_size (env.answer passed)) buff inotify_size (length s.task_data)
          ∷ malloc inotify_size
          ∷ passed;
    }
