-- ===== src/Server/SendFile/Cached.antt =====
-- The life of a request for a file that is in the cache.
use network_server.Base.{
  ℕ, ◌+◌, ◌-◌, ◌*◌, ◌<◌, ◌^◌, ◌≡◌, refl, ap, ◌∙◌, Bool, true, false, Option, some, [], ◌∷◌, ◌++◌,
  arith, length, get_elem?, Bytes, ok, ◌==◌, if◌then◌else◌, ==_self, get_elem?-append_self,
  get_elem?-set_self, get_elem?_lt,
}
use network_server.Lru.{Ptr, null, Item, has_name}
use network_server.Lru.Spec.{Shelf, first_match, remove_first, lock}
use network_server.Lru.Spec
use network_server.Lru.Locked.{unlock-get_and_lock}
use network_server.Ranges.{get_ranges}
use network_server.Server.{
  OperationType, http_send_file, Task, default_task, Iovec, Server, Env, malloc, fill,
  submit_writev,
}
use network_server.Server.Tasks.{with_buffer, get_task_buff_op, sizeof_iovec}
use network_server.Server.Tasks.Fresh.{with_task, get_task_buff_op-ok, modify_task-last}
use network_server.Server.SendFile.{
  iovec, send_cached_file, cache_get_and_lock, is_using_ranges, writev_finish,
}
use network_server.Server.SendFile.Answers.{
  submitted, writev_submit_helper-full, full_header, ok_header, header_calls,
}
use network_server.Response.{get_type_from_filename}
use network_server.Server.SendFile.Finish.{finished, tell, writev_finish-releases}

-- Without a Range header there are no ranges.
no_ranges : (n : ℕ) → get_ranges [] n true ≡ some ([], some true)
unfolding get_ranges
no_ranges n = refl

pub whole_file : (t : Task) → t.write_ranges ≡ [] → is_using_ranges t ≡ false
unfolding is_using_ranges
whole_file t none_left = ground (arith, none_left)

current : (test : Bool) (l r : Shelf × Option Item) → test ≡ false → (if test then l else r) ≡ r
current true l r e = ground arith
current false l r e = refl

locked_shelf : Bytes → Item → Shelf → Shelf
locked_shelf name x shelf = record shelf {
  items = lock x ∷ remove_first (has_name name) shelf.items;
}

get_and_lock-hit :
    (name : Bytes) (shelf : Shelf) (x : Item)
    → first_match (has_name name) shelf.items ≡ some x
    → x.outdated ≡ false
    → Spec.get_and_lock name shelf ≡ (locked_shelf name x shelf, some (lock x))
unfolding Spec.get_and_lock locked_shelf
get_and_lock-hit name shelf x found fresh =
    rw (found, Spec.get_and_lock) (current x.outdated _ _ fresh)

with_buffer-held :
    (type : OperationType) (b : Ptr) (n : ℕ)
    → (b == null) ≡ false
    → with_buffer type b n default_task
      ≡ record default_task { op_type = type; buff = b; buff_length = n }
unfolding with_buffer
with_buffer-held type b n held = rw held refl

-- The task of the request.
abbrev pub cached_task : Bytes → Item → Task
cached_task name x = record default_task {
  op_type = http_send_file;
  buff = x.buff;
  buff_length = x.buff_length;
  filepath = name;
}

module _ (env : Env) (client : ℕ) (name : Bytes) (s : Server) (x : Item)
    (fresh : s.task_freed_idxs ≡ []) (found : first_match (has_name name) s.cache.items ≡ some x)
    (up_to_date : x.outdated ≡ false) (buffered : (x.buff == null) ≡ false) where
  abbrev locked : Server
  locked = record s { cache = (Spec.get_and_lock name s.cache).0 }

  abbrev id : ℕ
  id = length s.task_data

  abbrev sent : Server
  sent = submitted env id client (cached_task name x) (with_task locked (cached_task name x))

  get_task-made :
      get_task_buff_op http_send_file x.buff x.buff_length locked
      ≡ ok id (with_task locked (record (cached_task name x) { filepath = [] }))
  get_task-made =
      get_task_buff_op-ok locked fresh http_send_file x.buff x.buff_length
      ∙ ap (λ t. ok id (with_task locked t))
          (with_buffer-held http_send_file x.buff x.buff_length buffered)

  send_cached_file-sent : send_cached_file env client name [] s ≡ ok (env.answer sent.trace) sent
  unfolding send_cached_file cache_get_and_lock lock
  send_cached_file-sent =
      let hit : (Spec.get_and_lock name s.cache).1 ≡ some (lock x) =
        ap (λ r. r.1) (get_and_lock-hit name s.cache x found up_to_date) in
      let t = record (cached_task name x) { filepath = [] } in
      rw hit (
        ground (
          arith,
          get_task-made,
          modify_task-last locked fresh t (λ t. record t { filepath = name }),
          no_ranges x.buff_length,
          modify_task-last locked fresh (cached_task name x) (λ t. record t { write_ranges = [] }),
          get_elem?-append_self locked.task_data (cached_task name x),
          whole_file (cached_task name x) refl,
          writev_submit_helper-full env id client (with_task locked (cached_task name x))
              (cached_task name x) (get_elem?-append_self locked.task_data (cached_task name x)),
        ))

  -- The task after the write was submitted.
  abbrev sent_task : Task
  sent_task =
      let text = full_header (cached_task name x) in
      let made = malloc (length text + 1) ∷ s.trace in
      let calls = malloc (sizeof_iovec * 2) ∷ fill (env.address made) (text ++ 0 ∷ []) ∷ made in
      record (cached_task name x) {
        write_ranges_idx = 1;
        buff = env.address calls;
        iovs = env.address (malloc (sizeof_iovec * 2) ∷ calls);
        num_iovecs = 2;
      }

  abbrev header : Iovec
  header =
      let text = full_header (cached_task name x) in
      iovec (env.address (malloc (length text + 1) ∷ s.trace)) (length text)

  sent-found : get_elem? sent.task_data id ≡ some sent_task
  sent-found = get_elem?-set_self (s.task_data ++ cached_task name x ∷ []) id _ (
      get_elem?_lt (s.task_data ++ cached_task name x ∷ []) id
        (get_elem?-append_self s.task_data (cached_task name x)))

  sent-arrays : sent.arrays sent_task.buff ≡ header ∷ iovec x.buff x.buff_length ∷ []
  sent-arrays = ground (arith, ==_self sent_task.buff)

  -- A request without a Range header for a file whose item in the cache is not outdated, has a buffer
  -- and a count of locks below the largest `size_t`, while no task id was given back: the header is
  -- made, with the type and size of the file, and one write is submitted, of the array of the header
  -- and the cached buffer; when the write is done, or has failed, the
  -- application is told, and the cache is as before but for the order: the item is in front, with as
  -- many locks as it had.
  pub send_cached_file-released :
      (pfd : ℕ) (failed : Bool)
      → x.num_locks < 2 ^ 64 - 1
      → (s' s'' : Server) × (send_cached_file env client name [] s ≡ ok (env.answer s'.trace) s')
        × (writev_finish env pfd id failed s' ≡ ok tt (tell env pfd s''))
        × (s'.trace
            ≡ submit_writev client sent_task.iovs 2 id
              ∷ header_calls
                  (ok_header (get_type_from_filename name) x.buff_length)
                  header.iov_base
                  s.trace)
        × (s'.arrays sent_task.iovs ≡ header ∷ iovec x.buff x.buff_length ∷ [])
        × (s''.cache ≡ record s.cache { items = x ∷ remove_first (has_name name) s.cache.items })
  send_cached_file-released pfd failed small = (
    sent,
    finished id sent_task header sent,
    send_cached_file-sent,
    writev_finish-releases env pfd id failed sent sent_task header (iovec x.buff x.buff_length ∷ [])
        sent-found sent-arrays,
    refl,
    ground (arith, ==_self sent_task.iovs),
    unlock-get_and_lock name s.cache x found up_to_date small,
  )
