-- ===== src/Server/Start.antt =====
-- src/core.cpp: the constructor of the server, and the listener's socket of src/utility.cpp.
pub mod FirstReads
use network_server.Base.{
  ℕ, ◌+◌, Bool, true, false, ◌||◌, List, [], ◌∷◌, if◌then◌else◌, ℤ, pos, negsuc, is_neg, to_size,
  pure, ok, fault, ◌>>=◌, ◌>>◌,
}
use network_server.Server.{
  OperationType, Env, ServerCmd, SocketOption, ignore_sigpipe, set_callbacks, get_addr_info,
  open_socket, set_socket_option, bind_socket, free_addr_info, listen, pass_fd, submit_accept,
  submit_read, fatal, emit, ask, allocate,
}
use network_server.Server.Tasks.{get_task_buff_op}

-- `LISTEN_BACKLOG`.
abbrev pub listen_backlog : ℕ
listen_backlog = 256

-- `sizeof(inotify_event) + NAME_MAX + 1`.
abbrev pub inotify_size : ℕ
inotify_size = 16 + 255 + 1

unfoldable pub set_options : ℤ → ServerCmd (Unit {0})
unfolding emit
set_options listener_fd = do
  emit (set_socket_option listener_fd SocketOption.reuse_addr 1)
  emit (set_socket_option listener_fd SocketOption.reuse_port 1)
  emit (set_socket_option listener_fd SocketOption.keep_alive 1)
  emit (set_socket_option listener_fd SocketOption.keep_idle 100)
  emit (set_socket_option listener_fd SocketOption.keep_interval 100)
  emit (set_socket_option listener_fd SocketOption.keep_count 5)

module _ (env : Env) where
  -- Every address gets a socket. The last socket and the result of the last `bind` are kept.
  unfoldable pub bind_addresses : List ℕ → (listener_fd ret_bind : ℤ) → ServerCmd (ℤ × ℤ)
  unfolding ask emit fatal set_options
  bind_addresses [] listener_fd ret_bind = pure (listener_fd, ret_bind)
  bind_addresses (address ∷ addresses) listener_fd ret_bind = do
    fd ← ask env (open_socket address)
    if is_neg fd then fatal else pure tt
    set_options fd
    bound ← ask env (bind_socket fd address)
    bind_addresses addresses fd bound

  -- If `getaddrinfo` fails, the loop begins with a pointer that was not initialised.
  unfoldable pub setup_listener_pfd : (port : ℕ) → ServerCmd ℤ
  unfolding ask emit bind_addresses
  setup_listener_pfd port = do
    ret_addrinfo ← ask env (get_addr_info port)
    if is_neg ret_addrinfo then (λ s. fault) else do
      server_info ← λ s. ok (env.addresses s.trace) s
      (listener_fd, ret_bind) ← bind_addresses server_info (pos 0) (pos 0)
      if is_neg ret_addrinfo || is_neg ret_bind then pure (negsuc 0) else do
        emit free_addr_info
        listening ← ask env (listen listener_fd listen_backlog)
        if is_neg listening then pure (negsuc 0) else ask env (pass_fd listener_fd)

  -- The result is `listener_pfd`. `has_callbacks` says whether the pointer to the callbacks is not
  -- null, and `inotify_fd` is the field of the cache.
  unfoldable pub new_server : Bool → ℤ → (port : ℕ) → ServerCmd ℤ
  unfolding ask emit fatal setup_listener_pfd allocate get_task_buff_op
  new_server has_callbacks inotify_fd port = do
    emit ignore_sigpipe
    if has_callbacks then pure tt else fatal
    emit set_callbacks
    listener_pfd ← setup_listener_pfd port
    submitted ← ask env (submit_accept (to_size listener_pfd))
    if is_neg submitted then fatal else pure tt
    inotify_pfd ← ask env (pass_fd inotify_fd)
    inotify_read_buff ← allocate env inotify_size
    inotify_read_task ← get_task_buff_op OperationType.inotify_read inotify_read_buff inotify_size
    ask env (submit_read (to_size inotify_pfd) inotify_read_buff inotify_size inotify_read_task)
    pure listener_pfd
