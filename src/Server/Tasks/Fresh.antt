-- ===== src/Server/Tasks/Fresh.antt =====
-- Each operation gets a task of its own behind those in use.
use network_server.Base.{
  ℕ, ◌≡◌, refl, List, [], ◌∷◌, ◌++◌, false, arith, ◌==◌, length, take, ok, set, ◌*◌,
  get_elem?-append_self, ap, and_then, pure,
}
use network_server.Lru.{Ptr, null}
use network_server.Server.{
  OperationType, Task, Server, Env, malloc, default_task, update_array, modify_task,
}
use network_server.Server.Tasks.{
  get_task, get_task_buff_op, get_task_vector_op, with_buffer, sizeof_iovec,
}

pub set-append_self {ℓ} :
    {A : Type ℓ} (xs : List A) (x y : A) → set (xs ++ x ∷ []) (length xs) y ≡ xs ++ y ∷ []
set-append_self [] x y = refl
set-append_self (z ∷ xs) x y = rw (set-append_self xs x y)

abbrev pub with_task : Server → Task → Server
with_task s t = record s { task_data = s.task_data ++ t ∷ [] }

-- The state `s'` is `s` with one more task.
pub record Grown (s s' : Server) (t : Task) : Type 0 where
  pub tasks : s'.task_data ≡ s.task_data ++ t ∷ []
  pub none_freed : s'.task_freed_idxs ≡ []
  pub same_cache : s'.cache ≡ s.cache

module _ (s : Server) (fresh : s.task_freed_idxs ≡ []) where
  pub get_task-ok : get_task s ≡ ok (length s.task_data) (with_task s default_task)
  unfolding get_task
  get_task-ok = ground (arith, fresh)

  -- A change of the task that was just made.
  pub modify_task-last :
      (t : Task) (f : Task → Task)
      → modify_task (length s.task_data) f (with_task s t) ≡ ok tt (with_task s (f t))
  unfolding modify_task
  modify_task-last t f =
      rw (get_elem?-append_self s.task_data t, set-append_self s.task_data t (f t))

  pub get_task_buff_op-ok :
      (type : OperationType) (b : Ptr) (n : ℕ)
      → get_task_buff_op type b n s
        ≡ ok (length s.task_data) (with_task s (with_buffer type b n default_task))
  unfolding get_task_buff_op
  get_task_buff_op-ok type b n = rw (get_task-ok, modify_task-last default_task _) refl

  pub get_task_vector_op-null :
      (env : Env) (type : OperationType) (n : ℕ)
      → get_task_vector_op env type null n s
        ≡ ok (length s.task_data) (with_task s (record default_task { op_type = type }))
  unfolding get_task_vector_op
  get_task_vector_op-null env type n = rw (get_task-ok, modify_task-last default_task _) refl

  -- The task of an operation on an array of iovecs, and the state with it: the array is copied.
  abbrev pub vector_task : OperationType → Ptr → ℕ → Ptr → Task
  vector_task type v n copy = record default_task {
    op_type = type;
    buff = v;
    num_iovecs = n;
    iovs = copy;
  }

  abbrev pub copied : Env → OperationType → Ptr → ℕ → Server
  copied env type v n =
      let copy = env.address (malloc (n * sizeof_iovec) ∷ s.trace) in
      record (with_task s (vector_task type v n copy)) {
        arrays = update_array s.arrays copy (take n (s.arrays v));
        trace = malloc (n * sizeof_iovec) ∷ s.trace;
      }

pub get_task_vector_op-ok :
    (s : Server) (fresh : s.task_freed_idxs ≡ []) (env : Env) (type : OperationType) (v : Ptr)
    (n : ℕ)
    → v == null ≡ false
    → get_task_vector_op env type v n s ≡ ok (length s.task_data) (copied s fresh env type v n)
unfolding get_task_vector_op
get_task_vector_op-ok s fresh env type v n e =
    let copy = env.address (malloc (n * sizeof_iovec) ∷ s.trace) in
    let u = record s {
      arrays = update_array s.arrays copy (take n (s.arrays v));
      trace = malloc (n * sizeof_iovec) ∷ s.trace;
    } in
    rw (get_task-ok s fresh, modify_task-last s fresh default_task _, e)
      (ap (λ r. and_then r (λ x. pure (length s.task_data)))
        (modify_task-last u fresh (record default_task { op_type = type })
          (λ t. record t { buff = v; iovs = copy; num_iovecs = n })))

pub with_buffer-real :
    (type : OperationType) (buffer : Ptr) (n : ℕ)
    → buffer == null ≡ false
    → with_buffer type buffer n default_task
      ≡ record default_task { op_type = type; buff = buffer; buff_length = n }
unfolding with_buffer
with_buffer-real type buffer n real = rw (real, with_buffer) refl
