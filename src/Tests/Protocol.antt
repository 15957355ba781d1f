-- ===== src/Tests/Protocol.antt =====
-- A POST request that comes in several parts.
use network_server.Base.{◌∷◌, ◌≡◌, [], refl, false, if◌then◌else◌, arith, codes, ok, ◌==◌}
use network_server.Server.{Server, Env, http_read_done}
use network_server.Server.Callbacks.WriteProgress.{told}
use network_server.Server.Reads.Network.{network_again}
use network_server.Server.Reads.Post.{body_task, another_read}
use network_server.Server.Reads.Protocol.{
  post_reads, Begun, Completed, calls_until_full, post_reads-told,
}
use network_server.Tests.World.{world}
use network_server.Tests.Posts.{
  waiting, waiter, post_text, post_request, post_received_nine, nine-Posted, whole_text,
  whole_request, whole_received, whole-Posted,
}

-- The buffer of the connection holds the first bytes, every other buffer the whole request.
abbrev two_buffers : Env
two_buffers = record world {
  bytes = λ calls p n. if p == 600 then post_text (codes "9") else whole_text;
}

nine-Begun : Begun two_buffers 600 43 39 9 waiter waiting
nine-Begun = record {
  network = refl;
  some_bytes = omega arith;
  fresh = refl;
  first = post_request (codes "9");
  received = (refl, post_received_nine);
  posted_first = nine-Posted;
  behind = omega arith;
  more = omega arith;
  fits = omega arith;
}

nine-Completed : Completed two_buffers 7 600 43 39 9 (2 ∷ 3 ∷ []) waiter waiting whole_request
nine-Completed = record {
  text = whole_text;
  in_memory = refl;
  parsed = whole_received;
  posted = whole-Posted;
  valid = refl;
}

post_reads-told_example :
    (s' : Server) × (p : _) × (s'.trace
      ≡ calls_until_full two_buffers 7 600 43 39 9 (2 ∷ 3 ∷ []) waiter waiting)
    × (post_reads two_buffers 0 7 0 600 4096 43 1 (2 ∷ 3 ∷ []) waiter
        ≡ ok tt (
            network_again 7 1 (body_task 1001 48 p) (
              told two_buffers
                (http_read_done whole_request 7 false)
                (another_read two_buffers 7 s'))))
post_reads-told_example =
    post_reads-told two_buffers 0 7 0 600 4096 43 39 9 2 (3 ∷ []) waiter waiting whole_request refl
      nine-Begun nine-Completed (omega arith) (omega arith, (omega arith, tt)) refl
      (λ size calls. ground arith) (λ u t found. found)
