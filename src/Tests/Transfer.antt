-- ===== src/Tests/Transfer.antt =====
-- A file that is read in two parts and written.
use network_server.Base.{length, ◌≡◌, refl, ℕ, ℤ, [], ◌∷◌, arith, ok, false, some, get_elem?}
use network_server.Lru.Spec
use network_server.Server.{
  http_send_file, Task, default_task, Server, Iovec, close_pfd, submit_writev,
}
use network_server.Server.SendFile.{iovec, writev_finish}
use network_server.Server.SendFile.Finish.{tell}
use network_server.Server.Reads.Parts.{run_reads, read_requests}
use network_server.Server.SendFile.Answers.{ok_header, header_calls}
use network_server.Response.{get_type_from_filename}
use network_server.Server.Reads.File.{run_reads-writev_finish}
use network_server.Tests.World.{world, server}

-- Four of ten bytes were read.
abbrev sending : Task
sending = record default_task {
  op_type = http_send_file;
  buff = 600;
  buff_length = 10;
  progress = 4;
  filepath = 97 ∷ [];
  for_client_num = 9;
}

abbrev sender : Server
sender = server (sending ∷ []) (λ p. [])

run_reads-writev_finish_example :
    (u s' : Server) × (sent : Task) × (header : Iovec) × (wd : ℤ) × (file_task : ℕ) × (run_reads
        world 0 7 0 604 6
        (1 ∷ 5 ∷ [])
        sender
      ≡ ok tt u)
    × (get_elem? u.task_data 0 ≡ some sent)
    × (u.trace
        ≡ close_pfd 7 file_task
          ∷ submit_writev 9 sent.iovs 2 0
          ∷ header_calls
              (ok_header (get_type_from_filename (97 ∷ [])) 10)
              header.iov_base
              (read_requests 600 10 7 0 4 (1 ∷ 5 ∷ []) []))
    × (header.iov_len ≡ length (ok_header (get_type_from_filename (97 ∷ [])) 10))
    × (u.arrays sent.iovs ≡ header ∷ iovec 600 10 ∷ [])
    × (writev_finish world 9 0 false u ≡ ok tt (tell world 9 s'))
    × (s'.cache ≡ (Spec.add_or_update (97 ∷ []) 600 10 wd (Spec.unlock (97 ∷ []) sender.cache)).0)
run_reads-writev_finish_example =
    run_reads-writev_finish world 0 7 0 604 6 1 9 (5 ∷ []) false sender sending refl refl refl refl
      (omega arith) (omega arith, (omega arith, tt)) (omega arith) refl
