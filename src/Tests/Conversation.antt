-- ===== src/Tests/Conversation.antt =====
-- A connection that is accepted, and two requests on it.
use network_server.Base.{◌≡◌, refl, [], ◌∷◌, length, arith, ok, pos, negsuc, if◌then◌else◌, ◌==◌}
use network_server.Server.{Server, Env}
use network_server.Server.Callbacks.{accept_callback}
use network_server.Server.Callbacks.Accepting.{connected, dropped, accept_callback-dropped}
use network_server.Server.Reads.Conversation.{
  Arrival, Arrives, conversation, accept_and_read, accept_and_read-conversation,
}
use network_server.Tests.World.{world, world_with, server}
use network_server.Tests.Reads.{get_text, get_request, get_received, not_post}

abbrev unused : Server
unused = server [] (λ p. [])

abbrev get_arrival : Arrival
get_arrival = record { size = 14; request = get_request }

get-Arrives :
    Arrives (world_with get_text) 7 0 1002 get_arrival (connected (world_with get_text) 5 7 unused)
get-Arrives = record {
  some_bytes = omega arith;
  small = omega arith;
  received = (refl, get_received);
  not_post = not_post;
  valid = refl;
  kept = refl;
}

again-Arrives : Arrives (world_with get_text) 7 0 1002 get_arrival (
    conversation
      (world_with get_text)
      7
      0
      1002
      (get_arrival ∷ [])
      (connected (world_with get_text) 5 7 unused))
again-Arrives = record {
  some_bytes = omega arith;
  small = omega arith;
  received = (refl, get_received);
  not_post = not_post;
  valid = refl;
  kept = refl;
}

accept_and_read-conversation_example :
    accept_and_read (world_with get_text) 0 5 7 0 0 1002 4096 (14 ∷ 14 ∷ []) unused
    ≡ ok tt (
        conversation
          (world_with get_text)
          7
          0
          1002
          (get_arrival ∷ get_arrival ∷ [])
          (connected (world_with get_text) 5 7 unused))
accept_and_read-conversation_example =
    accept_and_read-conversation (world_with get_text) 0 5 7 0 4096 unused
      (get_arrival ∷ get_arrival ∷ []) refl refl refl refl (get-Arrives, (again-Arrives, tt))

-- The third call fails: the first read of the connection.
abbrev no_read : Env
no_read = record world { answer = λ calls. if length calls == 3 then negsuc 0 else pos 0 }

accept_callback-dropped_example :
    accept_callback no_read 0 5 7 (pos 0) unused ≡ ok tt (dropped no_read 5 7 unused)
accept_callback-dropped_example = accept_callback-dropped no_read 5 7 unused 0 0 refl refl refl refl
