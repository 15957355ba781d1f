-- ===== src/Tests/Operations.antt =====
-- Operations and their callbacks at concrete inputs.
use network_server.Base.{
  ◌+◌, ◌-◌, ◌^◌, ◌≡◌, refl, List, [], ◌∷◌, arith, pos, negsuc, ok, length, if◌then◌else◌, ◌==◌,
}
use network_server.Server.{
  OperationType, Task, default_task, Iovec, Server, submit_write, submit_writev, submit_readv,
  callback,
}
use network_server.Server.Client.Requests.{
  ClientOp, operand, after, reply, run_op, calling, run_op-ok,
}
use network_server.Server.Callbacks.{
  eintr, close_callback, write_callback, writev_callback, readv_callback,
}
use network_server.Server.Callbacks.Closing.{closed, after-closed}
use network_server.Server.Callbacks.WriteProgress.{
  run_writes, requests, run_writes-told, written, write_callback-interrupted,
}
use network_server.Server.Callbacks.VectorProgress.{
  writev_callback-InProgress, readv_callback-InProgress,
}
use network_server.Server.Vectors.Partial.{InProgress, advanced}
use network_server.Tests.World.{world, server, idle}

abbrev op : ClientOp
op = ClientOp.websocket_writev 7 500 2

run_op-ok_example :
    run_op world op idle
    ≡ ok (reply world (operand op) (after world op idle).trace) (after world op idle)
run_op-ok_example = run_op-ok world idle refl op refl

after-closed_example :
    close_callback world 7 (pos 0) (length idle.task_data) (after world op idle)
    ≡ ok tt (world.app (closed op 7) (calling (callback (closed op 7)) (after world op idle)))
after-closed_example = after-closed world idle op 7 (pos 0) (omega arith)

-- A raw write of ten bytes, four of them done.
abbrev writing : Task
writing = record default_task {
  op_type = OperationType.raw_write;
  buff = 600;
  buff_length = 10;
  progress = 4;
}

abbrev writer : Server
writer = server (writing ∷ []) (λ p. [])

run_writes-told_example :
    (s' : Server) × (run_writes world 0 7 0 604 6 (1 ∷ 3 ∷ 2 ∷ []) writer
      ≡ ok tt (written world OperationType.raw_write 600 10 7 0 s'))
    × (s'.trace ≡ requests 600 10 7 0 4 (1 ∷ 3 ∷ 2 ∷ []) [])
run_writes-told_example =
    run_writes-told world 0 7 0 604 6 1 (3 ∷ 2 ∷ []) writer writing refl refl
      (omega arith, (omega arith, (omega arith, tt))) (omega arith)

abbrev unwritten : Task
unwritten = record writing { progress = 0 }

abbrev starter : Server
starter = server (unwritten ∷ []) (λ p. [])

write_callback-interrupted_example :
    write_callback world eintr 7 0 600 10 (negsuc 0) starter
    ≡ ok tt (
        written world OperationType.raw_write 600
          (2 ^ 64 - 1 - 0)
          7
          0
          (record starter { trace = submit_write 7 600 10 0 ∷ starter.trace }))
write_callback-interrupted_example =
    write_callback-interrupted world 7 0 600 10 0 starter unwritten refl refl (omega arith)

-- Two buffers, of three and of two bytes, nothing of them transferred.
abbrev two_buffers : List Iovec
two_buffers = record { iov_base = 600; iov_len = 3 } ∷ record { iov_base = 700; iov_len = 2 } ∷ []

abbrev vector_task : Task
vector_task = record default_task {
  op_type = OperationType.raw_writev;
  buff = 500;
  iovs = 501;
  num_iovecs = 2;
}

abbrev vectors : Server
vectors =
    server (vector_task ∷ [])
      (λ p. if p == 500 then two_buffers else if p == 501 then two_buffers else [])

vectors-InProgress : InProgress vectors 0 vector_task two_buffers 0
vectors-InProgress = record {
  found = refl;
  original = refl;
  count = refl;
  apart = λ e. ground arith;
  progress = refl;
  small = omega arith;
  rest = refl;
}

writev_callback-InProgress_example :
    (s' : Server) × (writev_callback world 0 7 0 501 2 (pos 4) vectors ≡ ok tt s')
    × InProgress s' 0 (advanced vector_task 4) two_buffers (0 + 4)
    × (s'.trace ≡ submit_writev 7 501 2 0 ∷ [])
writev_callback-InProgress_example =
    writev_callback-InProgress world 0 7 0 501 2 4 vectors vector_task two_buffers 0
      vectors-InProgress (omega arith)

readv_callback-InProgress_example :
    (s' : Server) × (readv_callback world 0 7 0 501 2 (pos 4) vectors ≡ ok tt s')
    × InProgress s' 0 (advanced vector_task 4) two_buffers (0 + 4)
    × (s'.trace ≡ submit_readv 7 501 2 0 ∷ [])
readv_callback-InProgress_example =
    readv_callback-InProgress world 0 7 0 501 2 4 vectors vector_task two_buffers 0
      vectors-InProgress (omega arith)
