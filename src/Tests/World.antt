-- ===== src/Tests/World.antt =====
-- A server with one idle task, and a world that answers it: every call succeeds, and each allocation
-- gets an address of its own.
use network_server.Base.{◌+◌, Bytes, List, [], ◌∷◌, length, pos}
use network_server.Lru.{Ptr}
use network_server.Server.{Task, default_task, Iovec, Server, Env}

abbrev pub world : Env
world = record {
  answer = λ calls. pos 0;
  address = λ calls. 1000 + length calls;
  amount = λ calls. 10;
  addresses = λ calls. 1 ∷ 2 ∷ [];
  bytes = λ calls p n. [];
  inotify_event = λ calls p. (2, pos 0);
  app = λ c s. s;
}

-- The same, with a text in memory.
abbrev pub world_with : Bytes → Env
world_with text = record world { bytes = λ calls p n. text }

abbrev pub server : List Task → (Ptr → List Iovec) → Server
server tasks arrays = record {
  task_data = tasks;
  task_freed_idxs = [];
  cache = record { items = []; limit = 5; freed = []; unwatched = [] };
  arrays = arrays;
  trace = [];
}

abbrev pub idle : Server
idle = server (default_task ∷ []) (λ p. [])
