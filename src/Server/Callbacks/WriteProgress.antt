-- ===== src/Server/Callbacks/WriteProgress.antt =====
-- A write of a buffer in several parts.
use network_server.Base.{
  sum_size, [], List, pure, ◌>>◌, get_elem?-set_self, get_elem?_lt, ℕ, ◌+◌, ◌-◌, ◌%◌, ◌^◌, ◌<◌, ◌≡◌,
  refl, false, arith, get_elem?, some, set, pos, negsuc, ok, ◌∷◌,
}
use network_server.Server.{
  ServerCmd, Event, OperationType, Task, Server, Env, submit_write, Callback, callback,
  http_write_done, raw_write_done, websocket_write_done, close_pfd,
}
use network_server.Server.Tasks.{free_task}
use network_server.Server.Callbacks.{eintr, write_callback, write_finished}

-- What the application is told of a buffer that is written, and the state after it.
abbrev pub told : Env → Callback → Server → Server
told env c s = env.app c (record s { trace = callback c ∷ s.trace })

abbrev pub written : Env → OperationType → (b len pfd id : ℕ) → Server → Server
written env OperationType.http_write b len pfd id s =
    let s' = told env (http_write_done b len pfd false) s in
    record s' { trace = close_pfd pfd id ∷ s'.trace }
written env OperationType.raw_write b len pfd id s = told env (raw_write_done b len pfd false) s
written env OperationType.websocket_write b len pfd id s =
    told env (websocket_write_done b len pfd false) s
written env _ b len pfd id s = s

write_finished-ok :
    (env : Env) (type : OperationType) (b len pfd id : ℕ) (s : Server)
    → write_finished env type b len pfd id s ≡ ok tt (written env type b len pfd id s)
unfolding write_finished
write_finished-ok env OperationType.http_write b len pfd id s = refl
write_finished-ok env _ b len pfd id s = refl

-- Part of the buffer is written: the task records how much, and exactly the rest is submitted.
pub write_callback-partial :
    (env : Env) (errno pfd id b n : ℕ) (k : ℕ) (s : Server) (t : Task)
    → get_elem? s.task_data id ≡ some t
    → t.progress + k < t.buff_length
    → t.buff_length < 2 ^ 64
    → write_callback env errno pfd id b n (pos k) s
      ≡ ok tt (record s {
        task_data = set s.task_data id (record t { progress = t.progress + k });
        trace =
            submit_write pfd (t.buff + (t.progress + k)) (t.buff_length - (t.progress + k)) id
            ∷ s.trace;
      })
unfolding write_callback
write_callback-partial env errno pfd id b n k s t found h small =
    ground (arith, found, sum_size t.progress k t.buff_length (omega arith) small)

-- The buffer is written to its end: the application is told the whole length.
pub write_callback_complete :
    (env : Env) (errno pfd id b n : ℕ) (k : ℕ) (s : Server) (t : Task)
    → get_elem? s.task_data id ≡ some t
    → t.progress + k ≡ t.buff_length
    → t.buff_length < 2 ^ 64
    → write_callback env errno pfd id b n (pos k) s
      ≡ ok tt (written env t.op_type t.buff t.buff_length pfd id s)
unfolding write_callback free_task
write_callback_complete env errno pfd id b n k s t found h small = ground (
  arith,
  found,
  h,
  sum_size t.progress k t.buff_length (omega arith) small,
  write_finished-ok env t.op_type t.buff t.buff_length pfd id s,
)

interrupted_size :
    (k n : ℕ) → k + n < 2 ^ 64 → (0 + (2 ^ 64 - 1 - k) % 2 ^ 64) % 2 ^ 64 ≡ 2 ^ 64 - 1 - k
interrupted_size k n h = omega arith

-- An interrupted write of which nothing was written yet is submitted again, and then taken for a
-- finished one whose size is the negative result as a `size_t`, if that is not less than the length
-- of the buffer.
pub write_callback-interrupted :
    (env : Env) (pfd id b n k : ℕ) (s : Server) (t : Task)
    → get_elem? s.task_data id ≡ some t
    → t.progress ≡ 0
    → k + t.buff_length < 2 ^ 64
    → write_callback env eintr pfd id b n (negsuc k) s
      ≡ ok tt (
          written env t.op_type t.buff
            (2 ^ 64 - 1 - k)
            pfd
            id
            (record s { trace = submit_write pfd b n id ∷ s.trace }))
unfolding write_callback free_task
write_callback-interrupted env pfd id b n k s t found fresh small = ground (
  arith,
  found,
  fresh,
  interrupted_size k t.buff_length small,
  write_finished-ok env t.op_type t.buff (2 ^ 64 - 1 - k) pfd id
      (record s { trace = submit_write pfd b n id ∷ s.trace }),
)

-- A write that the kernel does in several parts.
unfoldable pub run_writes : Env → (errno pfd id b n : ℕ) → List ℕ → ServerCmd (Unit {0})
run_writes env errno pfd id b n [] = pure tt
run_writes env errno pfd id b n (k ∷ ks) = do
  write_callback env errno pfd id b n (pos k)
  run_writes env errno pfd id b n ks

abbrev pub sum : List ℕ → ℕ
sum [] = 0
sum (k ∷ ks) = k + sum ks

abbrev pub AllPositive : List ℕ → Type 0
AllPositive [] = Unit {0}
AllPositive (k ∷ ks) = (0 < k) × AllPositive ks

-- The requests for the rest of the buffer, one after each part but the last, newest first.
abbrev pub requests : (b len pfd id progress : ℕ) → List ℕ → List Event → List Event
requests b len pfd id progress [] calls = calls
requests b len pfd id progress (k ∷ []) calls = calls
requests b len pfd id progress (k ∷ l ∷ ks) calls =
    requests b len pfd id (progress + k) (l ∷ ks)
      (submit_write pfd (b + (progress + k)) (len - (progress + k)) id ∷ calls)

-- The buffer of a task, of a length below 2 ^ 64, is written in any number of parts, none of them
-- empty, which together make up what was left: after each part but the last exactly the rest is
-- submitted, and after the last one the task ends as a finished one of the whole length, of which
-- the application is told if it is an HTTP, raw or websocket write.
pub run_writes-told :
    (env : Env) (errno pfd id b n k : ℕ) (ks : List ℕ) (s : Server) (t : Task)
    → get_elem? s.task_data id ≡ some t
    → t.progress + sum (k ∷ ks) ≡ t.buff_length
    → AllPositive (k ∷ ks)
    → t.buff_length < 2 ^ 64
    → (s' : Server) × (run_writes env errno pfd id b n (k ∷ ks) s
        ≡ ok tt (written env t.op_type t.buff t.buff_length pfd id s'))
      × (s'.trace ≡ requests t.buff t.buff_length pfd id t.progress (k ∷ ks) s.trace)
unfolding run_writes
run_writes-told env errno pfd id b n k [] s t found whole positive small = (
  s,
  rw (write_callback_complete env errno pfd id b n k s t found (omega arith) small) refl,
  refl,
)
run_writes-told env errno pfd id b n k (l ∷ ks) s t found whole positive small =
    let t' = record t { progress = t.progress + k } in
    let u = record s {
      task_data = set s.task_data id t';
      trace =
          submit_write pfd (t.buff + (t.progress + k)) (t.buff_length - (t.progress + k)) id
          ∷ s.trace;
    } in
    let (s', e, calls) =
      run_writes-told env errno pfd id b n l ks u t'
        (get_elem?-set_self s.task_data id t' (get_elem?_lt s.task_data id found))
        (omega (arith, whole)) positive.1 small in
    (
      s',
      rw
          (write_callback-partial env errno pfd id b n k s t found
            (omega (arith, whole, positive.1.0)) small)
          e,
      calls,
    )
