-- ===== src/Server/Callbacks/Closing.antt =====
-- The close callback of the task of an operation tells the application through the operation's
-- family of callbacks.
use network_server.Base.{
  ℕ, ◌^◌, ◌<◌, ◌≡◌, refl, false, length, leb, arith, get_elem?, some, ℤ, ok, get_elem?-append_self,
}
use network_server.Lru.{Ptr}
use network_server.Server.{
  OperationType, Task, Server, Env, Callback, raw_closed, http_closed, websocket_closed, callback,
}
use network_server.Server.Client.Requests.{ClientOp, after, calling, buffer_task}
use network_server.Server.Tasks.{free_task}
use network_server.Server.Callbacks.{close_callback, close_notice}

-- The family of an operation and its pseudo file descriptor.
abbrev pub closed : ClientOp → ℕ → Callback
closed (ClientOp.raw_read q b n) pfd = raw_closed pfd
closed (ClientOp.raw_write q b n) pfd = raw_closed pfd
closed (ClientOp.raw_readv q v n) pfd = raw_closed pfd
closed (ClientOp.raw_writev q v n) pfd = raw_closed pfd
closed (ClientOp.raw_close q) pfd = raw_closed pfd
closed (ClientOp.http_write q b n) pfd = http_closed pfd
closed (ClientOp.http_writev q v n) pfd = http_closed pfd
closed (ClientOp.http_close q) pfd = http_closed pfd
closed (ClientOp.websocket_write q b n) pfd = websocket_closed pfd
closed (ClientOp.websocket_writev q v n) pfd = websocket_closed pfd
closed (ClientOp.websocket_close q) pfd = websocket_closed pfd

not_negative : (id : ℕ) → id < 2 ^ 63 → leb (2 ^ 63) id ≡ false
not_negative id h = ground arith

closed_task :
    (env : Env) (s : Server) (pfd id : ℕ) (result : ℤ) (t : Task)
    → id < 2 ^ 63
    → get_elem? s.task_data id ≡ some t
    → (c : Callback)
    → ((s : Server) → close_notice env t.op_type pfd s ≡ ok tt (env.app c (calling (callback c) s)))
    → close_callback env pfd result id s ≡ ok tt (env.app c (calling (callback c) s))
unfolding close_callback free_task
closed_task env s pfd id result t h found c notice =
    rw (not_negative id h, found, notice s) (ground arith)

buffer_kind : (type : OperationType) (b : Ptr) (n : ℕ) → (buffer_task type b n).op_type ≡ type
buffer_kind type b n = ground arith

-- The close callback, given the task that an operation made, whose id is below 2 ^ 63, calls the
-- application's close callback of the operation's family, for any pseudo file descriptor.
pub after-closed :
    (env : Env) (s : Server) (op : ClientOp) (pfd : ℕ) (result : ℤ)
    → length s.task_data < 2 ^ 63
    → close_callback env pfd result (length s.task_data) (after env op s)
      ≡ ok tt (env.app (closed op pfd) (calling (callback (closed op pfd)) (after env op s)))
unfolding close_notice
after-closed env s (ClientOp.raw_read q b n) pfd result h =
    closed_task env _ pfd (length s.task_data) result _ h (get_elem?-append_self s.task_data _) _
      (λ s. rw (buffer_kind OperationType.raw_read b n) refl)
after-closed env s (ClientOp.raw_write q b n) pfd result h =
    closed_task env _ pfd (length s.task_data) result _ h (get_elem?-append_self s.task_data _) _
      (λ s. rw (buffer_kind OperationType.raw_write b n) refl)
after-closed env s (ClientOp.http_write q b n) pfd result h =
    closed_task env _ pfd (length s.task_data) result _ h (get_elem?-append_self s.task_data _) _
      (λ s. rw (buffer_kind OperationType.http_write b n) refl)
after-closed env s (ClientOp.websocket_write q b n) pfd result h =
    closed_task env _ pfd (length s.task_data) result _ h (get_elem?-append_self s.task_data _) _
      (λ s. rw (buffer_kind OperationType.websocket_write b n) refl)
after-closed env s (ClientOp.raw_readv q b n) pfd result h =
    closed_task env _ pfd (length s.task_data) result _ h (get_elem?-append_self s.task_data _) _
      (λ s. refl)
after-closed env s (ClientOp.raw_writev q b n) pfd result h =
    closed_task env _ pfd (length s.task_data) result _ h (get_elem?-append_self s.task_data _) _
      (λ s. refl)
after-closed env s (ClientOp.http_writev q b n) pfd result h =
    closed_task env _ pfd (length s.task_data) result _ h (get_elem?-append_self s.task_data _) _
      (λ s. refl)
after-closed env s (ClientOp.websocket_writev q b n) pfd result h =
    closed_task env _ pfd (length s.task_data) result _ h (get_elem?-append_self s.task_data _) _
      (λ s. refl)
after-closed env s (ClientOp.raw_close q) pfd result h =
    closed_task env _ pfd (length s.task_data) result _ h (get_elem?-append_self s.task_data _) _
      (λ s. refl)
after-closed env s (ClientOp.http_close q) pfd result h =
    closed_task env _ pfd (length s.task_data) result _ h (get_elem?-append_self s.task_data _) _
      (λ s. refl)
after-closed env s (ClientOp.websocket_close q) pfd result h =
    closed_task env _ pfd (length s.task_data) result _ h (get_elem?-append_self s.task_data _) _
      (λ s. refl)
