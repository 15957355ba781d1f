-- ===== src/Server/Client/Requests.antt =====
-- The methods by which the application starts an operation, together: each makes a task of its own
-- and submits one request for it.
use network_server.Base.{
  ℕ, ◌*◌, ◌≡◌, arith, refl, ap, Bool, true, false, not, List, [], ◌∷◌, ◌++◌, ◌==◌, length, take,
  if◌then◌else◌, pos, ℤ, ok, pure, and_then, ◌>>◌,
}
use network_server.Lru.{Ptr, null}
use network_server.Server.{
  OperationType, Task, Server, Env, ServerCmd, Event, default_task, submit_read, submit_readv,
  submit_write, submit_writev, close_pfd, malloc, emit, update_array,
}
use network_server.Server.Tasks.{with_buffer, sizeof_iovec}
use network_server.Server.Tasks.Fresh.{
  with_task, get_task-ok, modify_task-last, get_task_buff_op-ok, get_task_vector_op-ok,
}
use network_server.Server.Client

not_eq_true : (b : Bool) → not b ≡ true → b ≡ false
not_eq_true true e = ground arith
not_eq_true false e = refl

pub data ClientOp : Type 0 where
  raw_read raw_write http_write websocket_write : (pfd : ℕ) → (buff : Ptr) → (size : ℕ) → ClientOp
  raw_readv raw_writev http_writev websocket_writev : (pfd : ℕ) → (iovs : Ptr) → (n : ℕ) → ClientOp
  raw_close http_close websocket_close : (pfd : ℕ) → ClientOp

-- The method of each operation.
abbrev pub run_op : Env → ClientOp → ServerCmd ℤ
run_op env (ClientOp.raw_read pfd b n) = Client.raw_read env pfd b n
run_op env (ClientOp.raw_write pfd b n) = Client.raw_write env pfd b n
run_op env (ClientOp.http_write pfd b n) = Client.http_write env pfd b n
run_op env (ClientOp.websocket_write pfd b n) = Client.websocket_write env pfd b n
run_op env (ClientOp.raw_readv pfd v n) = Client.raw_readv env pfd v n
run_op env (ClientOp.raw_writev pfd v n) = Client.raw_writev env pfd v n
run_op env (ClientOp.http_writev pfd v n) = Client.http_writev env pfd v n
run_op env (ClientOp.websocket_writev pfd v n) = Client.websocket_writev env pfd v n
run_op env (ClientOp.raw_close pfd) = Client.raw_close env pfd
run_op env (ClientOp.http_close pfd) = Client.http_close env pfd
run_op env (ClientOp.websocket_close pfd) = Client.websocket_close env pfd

-- What each method stands for: the kind of its task, its operand, and the request that goes with
-- it. The request of `raw_writev` is a `readv`, as in the source.
abbrev pub kind : ClientOp → OperationType
kind (ClientOp.raw_read pfd b n) = OperationType.raw_read
kind (ClientOp.raw_write pfd b n) = OperationType.raw_write
kind (ClientOp.http_write pfd b n) = OperationType.http_write
kind (ClientOp.websocket_write pfd b n) = OperationType.websocket_write
kind (ClientOp.raw_readv pfd v n) = OperationType.raw_readv
kind (ClientOp.raw_writev pfd v n) = OperationType.raw_writev
kind (ClientOp.http_writev pfd v n) = OperationType.http_writev
kind (ClientOp.websocket_writev pfd v n) = OperationType.websocket_writev
kind (ClientOp.raw_close pfd) = OperationType.raw_close
kind (ClientOp.http_close pfd) = OperationType.http_close
kind (ClientOp.websocket_close pfd) = OperationType.websocket_close

pub data Operand : Type 0 where
  buffer : (buff : Ptr) → (size : ℕ) → Operand
  vectors : (iovs : Ptr) → (n : ℕ) → Operand
  no_operand : Operand

abbrev pub operand : ClientOp → Operand
operand (ClientOp.raw_read pfd b n) = buffer b n
operand (ClientOp.raw_write pfd b n) = buffer b n
operand (ClientOp.http_write pfd b n) = buffer b n
operand (ClientOp.websocket_write pfd b n) = buffer b n
operand (ClientOp.raw_readv pfd v n) = vectors v n
operand (ClientOp.raw_writev pfd v n) = vectors v n
operand (ClientOp.http_writev pfd v n) = vectors v n
operand (ClientOp.websocket_writev pfd v n) = vectors v n
operand (ClientOp.raw_close pfd) = no_operand
operand (ClientOp.http_close pfd) = no_operand
operand (ClientOp.websocket_close pfd) = no_operand

abbrev pub request : ClientOp → ℕ → Event
request (ClientOp.raw_read pfd b n) id = submit_read pfd b n id
request (ClientOp.raw_write pfd b n) id = submit_write pfd b n id
request (ClientOp.http_write pfd b n) id = submit_write pfd b n id
request (ClientOp.websocket_write pfd b n) id = submit_write pfd b n id
request (ClientOp.raw_readv pfd v n) id = submit_readv pfd v n id
request (ClientOp.raw_writev pfd v n) id = submit_readv pfd v n id
request (ClientOp.http_writev pfd v n) id = submit_writev pfd v n id
request (ClientOp.websocket_writev pfd v n) id = submit_writev pfd v n id
request (ClientOp.raw_close pfd) id = close_pfd pfd id
request (ClientOp.http_close pfd) id = close_pfd pfd id
request (ClientOp.websocket_close pfd) id = close_pfd pfd id

-- An operand that the methods take: an array of vectors is not null.
abbrev pub is_usable : Operand → Bool
is_usable (buffer b n) = true
is_usable (vectors v n) = not (v == null)
is_usable no_operand = true

-- The task of an operation on a buffer; of a null buffer the length is not kept either.
abbrev pub buffer_task : OperationType → Ptr → ℕ → Task
buffer_task type b n =
    if b == null
    then record default_task { op_type = type }
    else record default_task { op_type = type; buff = b; buff_length = n }

-- The state with the task that belongs to the operand; an array of vectors is copied.
abbrev pub with_operand : Env → OperationType → Operand → Server → Server
with_operand env type (buffer b n) s = with_task s (buffer_task type b n)
with_operand env type (vectors v n) s =
    let copy = env.address (malloc (n * sizeof_iovec) ∷ s.trace) in
    record s {
      task_data =
          s.task_data
          ++ (record default_task { op_type = type; buff = v; num_iovecs = n; iovs = copy }) ∷ [];
      arrays = update_array s.arrays copy (take n (s.arrays v));
      trace = malloc (n * sizeof_iovec) ∷ s.trace;
    }
with_operand env type no_operand s = with_task s (record default_task { op_type = type })

abbrev pub calling : Event → Server → Server
calling e s = record s { trace = e ∷ s.trace }

-- The state after an operation, and what the method returns.
abbrev pub after : Env → ClientOp → Server → Server
after env op s =
    calling (request op (length s.task_data)) (with_operand env (kind op) (operand op) s)

abbrev pub reply : Env → Operand → List Event → ℤ
reply env (buffer b n) calls = env.answer calls
reply env (vectors v n) calls = env.answer calls
reply env no_operand calls = pos 0

module _ (env : Env) (s : Server) (fresh : s.task_freed_idxs ≡ []) where
  abbrev pub Starts : ClientOp → Type 0
  Starts op = run_op env op s ≡ ok (reply env (operand op) (after env op s).trace) (after env op s)

  close_with-ok :
      (type : OperationType) (pfd : ℕ)
      → Client.close_with type pfd s
        ≡ ok (pos 0) (
            calling
              (close_pfd pfd (length s.task_data))
              (with_task s (record default_task { op_type = type })))
  unfolding Client.close_with
  close_with-ok type pfd = rw (get_task-ok s fresh) (
      ap (λ r. and_then r (λ x. (do emit (close_pfd pfd (length s.task_data)); pure (pos 0))))
        (modify_task-last s fresh default_task (λ t. record t { op_type = type })))

  -- While no task id was given back, every method by which the application starts an operation makes
  -- one task, of its kind and behind all others, and submits one request with the task's id; the
  -- other tasks stay as they are. A buffer that is not null and its length are kept in the task. An
  -- array of vectors, which must not be null, is copied, and its task keeps both arrays. The request
  -- of raw_writev is a read, of raw_readv's kind.
  pub run_op-ok : (op : ClientOp) → is_usable (operand op) ≡ true → Starts op
  unfolding Client.raw_read Client.raw_write Client.http_write Client.websocket_write
      Client.raw_readv Client.raw_writev Client.http_writev Client.websocket_writev Client.raw_close
      Client.http_close Client.websocket_close with_buffer
  run_op-ok (ClientOp.raw_read pfd b n) e =
      rw (get_task_buff_op-ok s fresh OperationType.raw_read b n) refl
  run_op-ok (ClientOp.raw_write pfd b n) e =
      rw (get_task_buff_op-ok s fresh OperationType.raw_write b n) refl
  run_op-ok (ClientOp.http_write pfd b n) e =
      rw (get_task_buff_op-ok s fresh OperationType.http_write b n) refl
  run_op-ok (ClientOp.websocket_write pfd b n) e =
      rw (get_task_buff_op-ok s fresh OperationType.websocket_write b n) refl
  run_op-ok (ClientOp.raw_readv pfd v n) e =
      rw (get_task_vector_op-ok s fresh env OperationType.raw_readv v n (not_eq_true (v == null) e))
        refl
  run_op-ok (ClientOp.raw_writev pfd v n) e =
      rw
        (get_task_vector_op-ok s fresh env OperationType.raw_writev v n (not_eq_true (v == null) e))
        refl
  run_op-ok (ClientOp.http_writev pfd v n) e =
      rw
        (get_task_vector_op-ok s fresh env OperationType.http_writev v n
          (not_eq_true (v == null) e))
        refl
  run_op-ok (ClientOp.websocket_writev pfd v n) e =
      rw
        (get_task_vector_op-ok s fresh env OperationType.websocket_writev v n
          (not_eq_true (v == null) e))
        refl
  run_op-ok (ClientOp.raw_close pfd) e = close_with-ok OperationType.raw_close pfd
  run_op-ok (ClientOp.http_close pfd) e = close_with-ok OperationType.http_close pfd
  run_op-ok (ClientOp.websocket_close pfd) e = close_with-ok OperationType.websocket_close pfd
