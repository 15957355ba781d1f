-- ===== src/Tests/Files.antt =====
-- The transfer of files at concrete inputs.
use network_server.Base.{
  length, bytes_eq, some, ◌+◌, ◌-◌, ◌≡◌, refl, true, false, List, [], ◌∷◌, arith, pos, negsuc, ok,
  codes, if◌then◌else◌, ◌==◌,
}
use network_server.Lru.{Item, has_name}
use network_server.Lru.Spec.{first_match, remove_first}
use network_server.Ranges.{Range}
use network_server.Server.SendFile.Cached.{cached_task, send_cached_file-released}
use network_server.Response.{get_type_from_filename}
use network_server.Server.{submit_writev, OperationType, Task, default_task, Iovec, Server}
use network_server.Server.SendFile.{
  send_cached_file, iovec, current_response, read_and_send, writev_finish,
}
use network_server.Server.SendFile.Answers.{
  full_header, ok_header, header_calls, partial_header, current_response-short, refused,
  read_and_send-refused,
}
use network_server.Server.SendFile.Finish.{tell}
use network_server.Tests.World.{world, server, idle}

abbrev first_part : Range
first_part = record { start = 2; end = 5 }

abbrev second_part : Range
second_part = record { start = 7; end = 8 }

-- A file of ten bytes at address 800, with two ranges, the first of them sent.
abbrev sending : Task
sending = record default_task {
  op_type = OperationType.http_send_file;
  buff = 500;
  buff_length = 10;
  iovs = 501;
  num_iovecs = 2;
  write_ranges = first_part ∷ second_part ∷ [];
  write_ranges_idx = 1;
  filepath = codes "a";
}

abbrev header : Iovec
header = iovec 600 20

abbrev body : List Iovec
body = iovec 802 3 ∷ []

abbrev sender : Server
sender = server (sending ∷ []) (λ p. if p == 500 then header ∷ body else [])

current_response-short_example :
    (vec : Iovec) × (current_response world sending true sender
      ≡ ok
          (
            partial_header second_part (get_type_from_filename (codes "a")) 10 (vec.iov_len + 1),
            vec,
          )
          sender)
    × (vec.iov_base ≡ 500 + 7)
    × (vec.iov_len ≡ 8 - 7)
current_response-short_example =
    current_response-short world sending sender second_part refl (omega arith) (omega arith)

read_and_send-refused_example :
    (s' : Server) × (read_and_send world 7 (codes "missing") [] true (pos 3) idle
      ≡ ok (negsuc 0) s')
    × (s'.trace ≡ refused world 7 (pos 3) idle)
    × (s'.cache ≡ idle.cache)
read_and_send-refused_example = read_and_send-refused world 7 (codes "missing") [] (pos 3) idle refl

-- A server with one file in its cache, which another request has locked.
abbrev cached_a : Item
cached_a = record {
  num_locks = 1;
  buff = 800;
  buff_length = 10;
  file_name = codes "a";
  watch = pos 1;
  outdated = false;
}

abbrev holder : Server
holder = record idle {
  cache = record { items = cached_a ∷ []; limit = 5; freed = []; unwatched = [] };
}

a_found : first_match (has_name (codes "a")) holder.cache.items ≡ some cached_a
unfolding first_match has_name bytes_eq
a_found = refl

send_cached_file-released_example :
    (s' s'' : Server) × (send_cached_file world 7 (codes "a") [] holder
      ≡ ok (world.answer s'.trace) s')
    × (writev_finish world 7 1 false s' ≡ ok tt (tell world 7 s''))
    × (s'.trace
        ≡ submit_writev 7 1004 2 1
          ∷ header_calls (ok_header (get_type_from_filename (codes "a")) 10) 1001 [])
    × (s'.arrays 1004
        ≡ iovec 1001 (length (full_header (cached_task (codes "a") cached_a))) ∷ iovec 800 10 ∷ [])
    × (s''.cache ≡ record holder.cache {
      items = cached_a ∷ remove_first (has_name (codes "a")) holder.cache.items;
    })
send_cached_file-released_example =
    send_cached_file-released world 7 (codes "a") holder cached_a refl a_found refl refl 7 false
      (omega arith)

-- A file of ten bytes at address 800, of which two ranges are asked for.
abbrev asked : Task
asked = record sending { buff = 800; iovs = 0; num_iovecs = 0; write_ranges_idx = 0 }
