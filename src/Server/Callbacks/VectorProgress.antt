-- ===== src/Server/Callbacks/VectorProgress.antt =====
-- `writev_callback` and `readv_callback` on partial progress.
use network_server.Base.{ℕ, ◌+◌, ◌<◌, ◌≡◌, refl, List, ◌∷◌, arith, pos, ok}
use network_server.Lru.{Ptr}
use network_server.Server.{Iovec, Task, Server, Env, submit_writev, submit_readv, Event}
use network_server.Server.Vectors.Remainder.{sum_lengths}
use network_server.Server.Vectors.Partial.{
  InProgress, advanced, refilled, vector_ops_progress-ok, refilled-InProgress, not_done,
}
use network_server.Server.Callbacks.{writev_callback, readv_callback}

abbrev Traced : Server → Event → Server
Traced s e = record s { trace = e ∷ s.trace }

module _ (env : Env) (errno pfd id : ℕ) (iovs : Ptr) (num_vecs n : ℕ) where
  writev_partial-ok :
      (s : Server) (t : Task) (vs : List Iovec) (sent : ℕ)
      → InProgress s id t vs sent
      → sent + n < sum_lengths vs
      → writev_callback env errno pfd id iovs num_vecs (pos n) s
        ≡ ok tt
            (Traced (refilled s id t vs (sent + n) n) (submit_writev pfd t.iovs t.num_iovecs id))
  unfolding writev_callback
  writev_partial-ok s t vs sent w short =
      ground (arith, w.found, not_done w n short, vector_ops_progress-ok w n short)

  readv_partial-ok :
      (s : Server) (t : Task) (vs : List Iovec) (sent : ℕ)
      → InProgress s id t vs sent
      → sent + n < sum_lengths vs
      → readv_callback env errno pfd id iovs num_vecs (pos n) s
        ≡ ok tt (Traced (refilled s id t vs (sent + n) n) (submit_readv pfd t.iovs t.num_iovecs id))
  unfolding readv_callback
  readv_partial-ok s t vs sent w short =
      ground (arith, w.found, not_done w n short, vector_ops_progress-ok w n short)

  -- When a vector write in progress has written some more bytes, but not the last ones, the next
  -- request names exactly the bytes that are still to be written, in order, and the task remembers
  -- how many are done.
  pub writev_callback-InProgress :
      (s : Server) (t : Task) (vs : List Iovec) (sent : ℕ)
      → InProgress s id t vs sent
      → sent + n < sum_lengths vs
      → (s' : Server) × (writev_callback env errno pfd id iovs num_vecs (pos n) s ≡ ok tt s')
        × InProgress s' id (advanced t n) vs (sent + n)
        × (s'.trace ≡ submit_writev pfd t.iovs t.num_iovecs id ∷ s.trace)
  writev_callback-InProgress s t vs sent w short =
      let r = refilled-InProgress w n short in
      (
        _,
        writev_partial-ok s t vs sent w short,
        record {
          found = r.found;
          original = r.original;
          count = r.count;
          apart = r.apart;
          progress = r.progress;
          small = r.small;
          rest = r.rest;
        },
        refl,
      )

  -- When a vector read in progress has read some more bytes, but not the last ones, the next request
  -- names exactly the bytes that are still to be read, in order, and the task remembers how many are
  -- done.
  pub readv_callback-InProgress :
      (s : Server) (t : Task) (vs : List Iovec) (sent : ℕ)
      → InProgress s id t vs sent
      → sent + n < sum_lengths vs
      → (s' : Server) × (readv_callback env errno pfd id iovs num_vecs (pos n) s ≡ ok tt s')
        × InProgress s' id (advanced t n) vs (sent + n)
        × (s'.trace ≡ submit_readv pfd t.iovs t.num_iovecs id ∷ s.trace)
  readv_callback-InProgress s t vs sent w short =
      let r = refilled-InProgress w n short in
      (
        _,
        readv_partial-ok s t vs sent w short,
        record {
          found = r.found;
          original = r.original;
          count = r.count;
          apart = r.apart;
          progress = r.progress;
          small = r.small;
          rest = r.rest;
        },
        refl,
      )
