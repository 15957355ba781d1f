-- ===== src/Server/Reads/Parts.antt =====
-- A read of a buffer in several parts: a file, the body of a POST request, or raw data.
use network_server.Base.{
  sum_size, ℕ, ◌+◌, ◌-◌, ◌^◌, ◌<◌, ◌≡◌, refl, Bool, true, false, List, [], ◌∷◌, arith, get_elem?,
  set, get_elem?-set_self, get_elem?_lt, some, pos, int_eq, ok, pure, ◌>>◌, and_then, and_then-pure,
  ap, ◌∙◌,
}
use network_server.Server.{ServerCmd, Event, OperationType, Task, Server, Env, submit_read}
use network_server.Server.Reads.{read_callback, read_complete, read_data}
use network_server.Server.Callbacks.WriteProgress.{sum, AllPositive}

-- The operations whose reads go on until the buffer is full.
abbrev pub fills_buffer : OperationType → Bool
fills_buffer OperationType.http_send_file = true
fills_buffer OperationType.http_post_read = true
fills_buffer OperationType.raw_read = true
fills_buffer _ = false

positive : (k : ℕ) → 0 < k → int_eq (pos k) (pos 0) ≡ false
unfolding int_eq
positive k h = ground arith

module _ (env : Env) (pfd id : ℕ) (s : Server) (t : Task)
    (found : get_elem? s.task_data id ≡ some t) (small : t.buff_length < 2 ^ 64) where
  read_data-partial :
      (type : OperationType) (b k : ℕ)
      → fills_buffer type ≡ true
      → t.progress + k < t.buff_length
      → read_data env type pfd id b (pos k) s
        ≡ ok tt (record s {
          task_data = set s.task_data id (record t { progress = t.progress + k });
          trace =
              submit_read pfd (t.buff + (t.progress + k)) (t.buff_length - (t.progress + k)) id
              ∷ s.trace;
        })
  unfolding read_data
  read_data-partial OperationType.http_send_file b k fills h =
      ground (arith, found, sum_size t.progress k t.buff_length (omega arith) small)
  read_data-partial OperationType.http_post_read b k fills h =
      ground (arith, found, sum_size t.progress k t.buff_length (omega arith) small)
  read_data-partial OperationType.raw_read b k fills h =
      ground (arith, found, sum_size t.progress k t.buff_length (omega arith) small)
  read_data-partial _ b k fills h = ground arith

  read_data_complete :
      (type : OperationType) (b k : ℕ)
      → fills_buffer type ≡ true
      → t.progress + k ≡ t.buff_length
      → read_data env type pfd id b (pos k) s
        ≡ read_complete env t.op_type pfd id t.buff t.buff_length s
  unfolding read_data
  read_data_complete OperationType.http_send_file b k fills h =
      ground (arith, found, h, sum_size t.progress k t.buff_length (omega arith) small)
  read_data_complete OperationType.http_post_read b k fills h =
      ground (arith, found, h, sum_size t.progress k t.buff_length (omega arith) small)
  read_data_complete OperationType.raw_read b k fills h =
      ground (arith, found, h, sum_size t.progress k t.buff_length (omega arith) small)
  read_data_complete _ b k fills h = ground arith

-- A read of bytes is dispatched by the task's operation.
pub read_callback-data :
    (env : Env) (errno pfd id b n k : ℕ) (s : Server) (t : Task)
    → get_elem? s.task_data id ≡ some t
    → 0 < k
    → read_callback env errno pfd id b n (pos k) s ≡ read_data env t.op_type pfd id b (pos k) s
unfolding read_callback
read_callback-data env errno pfd id b n k s t found h = rw (positive k h, found, read_callback) refl

-- A read that the kernel does in several parts.
unfoldable pub run_reads : Env → (errno pfd id b n : ℕ) → List ℕ → ServerCmd (Unit {0})
run_reads env errno pfd id b n [] = pure tt
run_reads env errno pfd id b n (k ∷ ks) = do
  read_callback env errno pfd id b n (pos k)
  run_reads env errno pfd id b n ks

-- The requests for the rest of the buffer, one after each part but the last, newest first.
abbrev pub read_requests : (b len pfd id progress : ℕ) → List ℕ → List Event → List Event
read_requests b len pfd id progress [] calls = calls
read_requests b len pfd id progress (k ∷ []) calls = calls
read_requests b len pfd id progress (k ∷ l ∷ ks) calls =
    read_requests b len pfd id (progress + k) (l ∷ ks)
      (submit_read pfd (b + (progress + k)) (len - (progress + k)) id ∷ calls)

-- The buffer of a task that reads a file, the body of a POST request or raw data, of a length below
-- 2 ^ 64, is filled in any number of parts, none of them empty, which together make up what was
-- left: after each part but the last exactly the rest is submitted, into the place behind what was
-- read, and after the last one the operation goes on with the whole buffer, once. The free task ids
-- and the cache are as before.
pub run_reads-read_complete :
    (env : Env) (errno pfd id b n k : ℕ) (ks : List ℕ) (s : Server) (t : Task)
    → get_elem? s.task_data id ≡ some t
    → fills_buffer t.op_type ≡ true
    → t.progress + sum (k ∷ ks) ≡ t.buff_length
    → AllPositive (k ∷ ks)
    → t.buff_length < 2 ^ 64
    → (s' : Server) × (run_reads env errno pfd id b n (k ∷ ks) s
        ≡ read_complete env t.op_type pfd id t.buff t.buff_length s')
      × (s'.trace ≡ read_requests t.buff t.buff_length pfd id t.progress (k ∷ ks) s.trace)
      × ((p : ℕ) × (get_elem? s'.task_data id ≡ some (record t { progress = p })))
      × (s'.task_freed_idxs ≡ s.task_freed_idxs)
      × (s'.cache ≡ s.cache)
unfolding run_reads
run_reads-read_complete env errno pfd id b n k [] s t found fills whole positive small = (
  s,
  and_then-pure (read_callback env errno pfd id b n (pos k) s)
      ∙ read_callback-data env errno pfd id b n k s t found positive.0
      ∙ read_data_complete env pfd id s t found small t.op_type b k fills (omega (arith, whole)),
  refl,
  (t.progress, found),
  refl,
  refl,
)
run_reads-read_complete env errno pfd id b n k (l ∷ ks) s t found fills whole positive small =
    let t' = record t { progress = t.progress + k } in
    let u = record s {
      task_data = set s.task_data id t';
      trace =
          submit_read pfd (t.buff + (t.progress + k)) (t.buff_length - (t.progress + k)) id
          ∷ s.trace;
    } in
    let (s', e, calls, kept, ids, cache) =
      run_reads-read_complete env errno pfd id b n l ks u t'
        (get_elem?-set_self s.task_data id t' (get_elem?_lt s.task_data id found)) fills
        (omega (arith, whole)) positive.1 small in
    (
      s',
      ap (λ run. and_then run (λ _. run_reads env errno pfd id b n (l ∷ ks)))
            (read_callback-data env errno pfd id b n k s t found positive.0
              ∙ read_data-partial env pfd id s t found small t.op_type b k fills
                  (omega (arith, whole, positive.1.0)))
          ∙ e,
      calls,
      kept,
      ids,
      cache,
    )
