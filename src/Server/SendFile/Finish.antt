-- ===== src/Server/SendFile/Finish.antt =====
-- The end of a file's transfer.
use network_server.Base.{
  inl, inr, Bool-cases, ℕ, ◌≡◌, Bool, false, some, List, ◌∷◌, arith, get_elem?, set, ok, ◌==◌,
  if◌then◌else◌,
}
use network_server.Lru.{null}
use network_server.Lru.Spec
use network_server.Server.{Task, Iovec, Server, Env, free, add_watch, callback, http_writev_done}
use network_server.Server.SendFile.{writev_finish, cache_unlock, cache_add_or_update}

abbrev pub released : Task → Task
released t = record t { buff = null; iovs = null }

-- The state in which the application is told of the end.
abbrev pub finished : ℕ → Task → Iovec → Server → Server
finished id t header s = record s {
  task_data = set s.task_data id (released t);
  cache = Spec.unlock t.filepath s.cache;
  trace = free t.iovs ∷ free t.buff ∷ free header.iov_base ∷ s.trace;
}

abbrev pub tell : Env → ℕ → Server → Server
tell env pfd s =
    env.app (http_writev_done null 0 pfd false)
      (record s { trace = callback (http_writev_done null 0 pfd false) ∷ s.trace })

-- The buffer of a file that was read goes to the cache, or is freed if the cache does not take it.
abbrev pub kept : Env → Task → Server → Server
kept env t s =
    let (shelf, added) =
      Spec.add_or_update t.filepath t.additional_ptr t.buff_length
        (env.answer (add_watch t.filepath ∷ s.trace)) s.cache in
    let s' = record s { cache = shelf } in
    if added then s' else record s' { trace = free t.additional_ptr ∷ s.trace }

-- At the end of a transfer, failed or not, the header and both arrays are freed, the item of that
-- file loses a lock, the buffer of a file that was read goes to the cache or is freed, and the
-- application is told of a success.
pub writev_finish-releases :
    (env : Env) (pfd id : ℕ) (failed : Bool) (s : Server) (t : Task) (header : Iovec)
    (rest : List Iovec)
    → get_elem? s.task_data id ≡ some t
    → s.arrays t.buff ≡ header ∷ rest
    → writev_finish env pfd id failed s
      ≡ ok tt (
          tell env pfd (
            if t.additional_ptr == null
            then finished id t header s
            else kept env t (finished id t header s)))
unfolding writev_finish cache_unlock cache_add_or_update
writev_finish-releases env pfd id failed s t header rest found original =
    elim (Bool-cases (t.additional_ptr == null)) [
      | inl cached ↦ ground (arith, found, original, cached)
      | inr file ↦ ground (arith, found, original, file)
    ]
