-- ===== src/Server/Reads/File.antt =====
-- The life of a file that is read for a client: its parts, the write with its header, and the cache.
use network_server.Base.{
  ℕ, ◌+◌, ◌*◌, ◌++◌, ◌<◌, ◌^◌, ◌≡◌, refl, ap, ◌∙◌, Bool, true, false, some, List, [], ◌∷◌, arith,
  length, get_elem?, set, get_elem?-set_self, get_elem?_lt, get_elem?-append_lt, ℤ, size_max, ok,
  ◌==◌, ==_self, and_then, pure, ◌>>◌, if◌then◌else◌,
}
use network_server.Lru.{null}
use network_server.Lru.Spec
use network_server.Lru.Spec.{Shelf}
use network_server.Server.{
  http_send_file, Task, Iovec, Server, Env, Event, modify_task, submit_writev, close_pfd, fill,
  malloc,
}
use network_server.Server.Tasks.{sizeof_iovec}
use network_server.Server.Client.{raw_close}
use network_server.Server.Client.Requests.{ClientOp, after, run_op-ok}
use network_server.Server.Callbacks.WriteProgress.{sum, AllPositive}
use network_server.Server.SendFile.{
  iovec, is_using_ranges, writev_submit, writev_submit_helper, writev_finish,
}
use network_server.Server.SendFile.Answers.{
  submitted, full_header, ok_header, header_calls, writev_submit_helper-full,
}
use network_server.Response.{get_type_from_filename}
use network_server.Server.SendFile.Cached.{whole_file}
use network_server.Server.SendFile.Finish.{finished, kept, tell, writev_finish-releases}
use network_server.Server.Reads.{read_complete}
use network_server.Server.Reads.Parts.{run_reads, read_requests, run_reads-read_complete}

-- The task while the file is written: it remembers the buffer of the file.
abbrev remembering : Task → Task
remembering t = record t { additional_ptr = t.buff; for_client_num = size_max }

module _ (env : Env) (pfd id : ℕ) (s : Server) (t : Task) where
  abbrev remembered : Server
  remembered = record s { task_data = set s.task_data id (remembering t) }

  -- The write was submitted, and the file closed.
  abbrev writing : Server
  writing = submitted env id t.for_client_num (remembering t) remembered

  abbrev file_closed : Server
  file_closed = after env (ClientOp.raw_close pfd) writing

  abbrev calls_before : List Event
  calls_before =
      let text = full_header t in
      let made = malloc (length text + 1) ∷ s.trace in
      malloc (sizeof_iovec * 2) ∷ fill (env.address made) (text ++ 0 ∷ []) ∷ made

  abbrev written_task : Task
  written_task = record (remembering t) {
    write_ranges_idx = t.write_ranges_idx + 1;
    buff = env.address calls_before;
    iovs = env.address (malloc (sizeof_iovec * 2) ∷ calls_before);
    num_iovecs = 2;
  }

  abbrev pub header_vector : Iovec
  header_vector =
      iovec (env.address (malloc (length (full_header t) + 1) ∷ s.trace)) (length (full_header t))

  module _ (found : get_elem? s.task_data id ≡ some t) where
    remembered_task : get_elem? remembered.task_data id ≡ some (remembering t)
    remembered_task = get_elem?-set_self s.task_data id _ (get_elem?_lt s.task_data id found)

    remembers :
        modify_task id (λ t. record t { additional_ptr = t.buff; for_client_num = size_max }) s
        ≡ ok tt remembered
    unfolding modify_task
    remembers = rw found refl

    writev_submit-full :
        s.task_freed_idxs ≡ []
        → is_using_ranges t ≡ false
        → writev_submit env pfd id s ≡ ok tt file_closed
    unfolding writev_submit
    writev_submit-full fresh whole =
        rw (found, whole, writev_submit)
          (ap
              (λ r. and_then r (λ _. (do
                writev_submit_helper env id t.for_client_num false
                raw_close env pfd
                pure tt)))
              remembers
            ∙ ap (λ r. and_then r (λ _. (do raw_close env pfd; pure tt)))
                (writev_submit_helper-full env id t.for_client_num remembered (remembering t)
                  remembered_task)
            ∙ ap (λ r. and_then r (λ _. pure tt))
                (run_op-ok env writing fresh (ClientOp.raw_close pfd) refl))

    written_found : get_elem? writing.task_data id ≡ some written_task
    written_found =
        get_elem?-set_self remembered.task_data id _
          (get_elem?_lt remembered.task_data id remembered_task)

    closed_found : get_elem? file_closed.task_data id ≡ some written_task
    closed_found =
        get_elem?-append_lt writing.task_data _ id (get_elem?_lt writing.task_data id written_found)
        ∙ written_found

    closed_arrays :
        file_closed.arrays written_task.buff ≡ header_vector ∷ iovec t.buff t.buff_length ∷ []
    closed_arrays = ground (arith, ==_self written_task.buff)

    closed_copy :
        file_closed.arrays written_task.iovs ≡ header_vector ∷ iovec t.buff t.buff_length ∷ []
    closed_copy = ground (arith, ==_self written_task.iovs)

abbrev shelved : Task → ℤ → Shelf → Shelf
shelved t wd shelf = (Spec.add_or_update t.filepath t.additional_ptr t.buff_length wd shelf).0

kept_cache :
    (added : Bool) (s : Server) (calls : List Event)
    → (if added then s else record s { trace = calls }).cache ≡ s.cache
kept_cache true s calls = refl
kept_cache false s calls = refl

-- The last part of a file's transfer, of a task that remembers a buffer.
writev_finish-shelved :
    (env : Env) (client id : ℕ) (failed : Bool) (s : Server) (t : Task) (header : Iovec)
    (rest : List Iovec)
    → get_elem? s.task_data id ≡ some t
    → s.arrays t.buff ≡ header ∷ rest
    → t.additional_ptr == null ≡ false
    → (s' : Server) × (wd : ℤ) × (writev_finish env client id failed s ≡ ok tt (tell env client s'))
      × (s'.cache ≡ shelved t wd (Spec.unlock t.filepath s.cache))
writev_finish-shelved env client id failed s t header rest found original file = (
  kept env t (finished id t header s),
  _,
  writev_finish-releases env client id failed s t header rest found original
      ∙ ap
          (λ b. ok tt (
            tell env client
              (if b then finished id t header s else kept env t (finished id t header s))))
          file,
  kept_cache _ _ _,
)

-- A file that a client asked for, without ranges, is read in any number of parts, none of them
-- empty, into a buffer of its size, which is below 2 ^ 64, while no task id is free for use. At the
-- end the header of the whole file is made, with its type and size, one write is submitted for that
-- client, of the array of the header and the whole buffer, and the file is closed. When the write is
-- done, or has failed, the application is told, and the cache is as before but that the file's item lost a lock
-- and the buffer was then offered to it under the name of the file, with its size.
pub run_reads-writev_finish :
    (env : Env) (errno pfd id b n k client : ℕ) (ks : List ℕ) (failed : Bool) (s : Server)
    (t : Task)
    → get_elem? s.task_data id ≡ some t
    → t.op_type ≡ http_send_file
    → t.write_ranges ≡ []
    → t.buff == null ≡ false
    → t.progress + sum (k ∷ ks) ≡ t.buff_length
    → AllPositive (k ∷ ks)
    → t.buff_length < 2 ^ 64
    → s.task_freed_idxs ≡ []
    → (u s' : Server) × (sent : Task) × (header : Iovec) × (wd : ℤ) × (file_task : ℕ) × (run_reads
          env errno pfd id b n
          (k ∷ ks)
          s
        ≡ ok tt u)
      × (get_elem? u.task_data id ≡ some sent)
      × (u.trace
          ≡ close_pfd pfd file_task
            ∷ submit_writev t.for_client_num sent.iovs 2 id
            ∷ header_calls
                (ok_header (get_type_from_filename t.filepath) t.buff_length)
                header.iov_base
                (read_requests t.buff t.buff_length pfd id t.progress (k ∷ ks) s.trace))
      × (header.iov_len ≡ length (ok_header (get_type_from_filename t.filepath) t.buff_length))
      × (u.arrays sent.iovs ≡ header ∷ iovec t.buff t.buff_length ∷ [])
      × (writev_finish env client id failed u ≡ ok tt (tell env client s'))
      × (s'.cache
          ≡ (Spec.add_or_update t.filepath t.buff t.buff_length wd
              (Spec.unlock t.filepath s.cache)).0)
unfolding read_complete
run_reads-writev_finish env errno pfd id b n k client ks failed s t found file no_ranges real whole
      positive small fresh =
    let (v, e, calls, (p, reads), ids, cache) =
      run_reads-read_complete env errno pfd id b n k ks s t found (rw file refl) whole positive
        small in
    let t' = record t { progress = p } in
    let u = file_closed env pfd id v t' in
    let (s', wd, told, shelf) =
      writev_finish-shelved env client id failed u (written_task env pfd id v t') _ _
        (closed_found env pfd id v t' reads) (closed_arrays env pfd id v t' reads) real in
    (
      u,
      s',
      written_task env pfd id v t',
      header_vector env pfd id v t',
      wd,
      _,
      e
          ∙ ap (λ type. read_complete env type pfd id t.buff t.buff_length v) file
          ∙ writev_submit-full env pfd id v t' reads (ids ∙ fresh) (whole_file t' no_ranges),
      closed_found env pfd id v t' reads,
      ap
          (λ before.
            close_pfd pfd (length (writing env pfd id v t').task_data)
            ∷ submit_writev t.for_client_num (written_task env pfd id v t').iovs 2 id
            ∷ header_calls (full_header t) (header_vector env pfd id v t').iov_base before)
          calls,
      refl,
      closed_copy env pfd id v t' reads,
      told,
      shelf
          ∙ ap
              (λ shelf.
                (Spec.add_or_update t.filepath t.buff t.buff_length wd
                  (Spec.unlock t.filepath shelf)).0)
              cache,
    )
