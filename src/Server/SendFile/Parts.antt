-- ===== src/Server/SendFile/Parts.antt =====
-- Two ranges of a file, one after the other.
use network_server.Base.{
  ℕ, ◌+◌, ◌≡◌, some, List, [], ◌∷◌, ◌++◌, length, get_elem?, set, sub_size, Bytes, ◌*◌,
}
use network_server.Ranges.{Range}
use network_server.Response.{http_10, resp_206_partial, range_response, get_type_from_filename}
use network_server.Server.{
  Task, Iovec, Server, Env, Event, submit_writev, fill, malloc, update_array,
}
use network_server.Server.Tasks.{sizeof_iovec}
use network_server.Server.SendFile.{iovec}

-- The header of a part, and the state after its write was submitted, as the first one of a file.
abbrev part_header : Range → Task → Bytes
part_header r t =
    range_response resp_206_partial http_10 r (get_type_from_filename t.filepath) t.buff_length

module _ (env : Env) (id client : ℕ) (s : Server) (t : Task) (r : Range)
    (found : get_elem? s.task_data id ≡ some t)
    (current : get_elem? t.write_ranges t.write_ranges_idx ≡ some r) where
  abbrev made : List Event
  made = malloc (length (part_header r t) + 1) ∷ s.trace

  abbrev array_calls : List Event
  array_calls =
      malloc (sizeof_iovec * 2) ∷ fill (env.address made) (part_header r t ++ 0 ∷ []) ∷ made

  abbrev first_header : Iovec
  first_header = iovec (env.address made) (length (part_header r t))

  abbrev first_body : Iovec
  first_body = iovec (t.buff + r.start) (sub_size r.end r.start)

  abbrev first_task : Task
  first_task = record t {
    write_ranges_idx = t.write_ranges_idx + 1;
    buff = env.address array_calls;
    iovs = env.address (malloc (sizeof_iovec * 2) ∷ array_calls);
    num_iovecs = 2;
  }

  abbrev first_sent : Server
  first_sent =
      let content = first_header ∷ first_body ∷ [] in
      record s {
        task_data = set s.task_data id first_task;
        arrays =
            update_array (update_array s.arrays first_task.buff content) first_task.iovs content;
        trace = submit_writev client first_task.iovs 2 id ∷ malloc (sizeof_iovec * 2) ∷ array_calls;
      }
