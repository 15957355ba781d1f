-- ===== src/Server/Vectors/Partial.antt =====
-- A vector operation in progress: what the task, its two arrays and the last request say while
-- only a part of the bytes has been transferred.
use network_server.Base.{
  ℕ, ◌+◌, ◌%◌, ◌^◌, ◌<◌, ◌≡◌, ◌≢◌, refl, ap, ◌∙◌, false, leb, List, [], ◌∷◌, some, arith, add_size,
  length, drop, take, get_elem?, set, ok, pos, get_elem?_lt, get_elem?-set_self, ==_self,
}
use network_server.Server.{Iovec, Task, Server, update_array}
use network_server.Server.Vectors.{remaining, pad, total_length, vector_ops_progress}
use network_server.Server.Vectors.Remainder.{addresses, sum_lengths, refill-drop, total_length-sum}

-- Task `id` transfers the buffers `vs`, of which `sent` bytes are done: the array that it submits
-- names exactly the bytes that are left.
pub record InProgress (s : Server) (id : ℕ) (t : Task) (vs : List Iovec) (sent : ℕ) : Type 0 where
  pub found : get_elem? s.task_data id ≡ some t
  pub original : s.arrays t.buff ≡ vs
  pub count : t.num_iovecs ≡ length vs
  pub apart : t.buff ≢ t.iovs
  pub progress : t.progress ≡ sent
  pub small : sum_lengths vs < 2 ^ 64
  pub rest : addresses (s.arrays t.iovs) ≡ drop sent (addresses vs)

pub take_all {ℓ} : {A : Type ℓ} (xs : List A) → take (length xs) xs ≡ xs
take_all [] = refl
take_all (x ∷ xs) = ap (◌∷◌ x) (take_all xs)

-- The array that the task submits, read through `num_iovecs`, is the original one.
pub original-take :
    {s : Server} {id : ℕ} {t : Task} {vs : List Iovec} {sent : ℕ}
    → InProgress s id t vs sent
    → take t.num_iovecs (s.arrays t.buff) ≡ vs
original-take {vs} w = ap (take _) w.original ∙ ap (λ n. take n vs) w.count ∙ take_all vs

abbrev pub advanced : Task → ℕ → Task
advanced t n = record t { progress = add_size t.progress (n % 2 ^ 64) }

abbrev pub refilled : Server → ℕ → Task → List Iovec → ℕ → ℕ → Server
refilled s id t vs total n = record s {
  arrays = update_array s.arrays t.iovs (pad (length vs) (remaining total 0 vs));
  task_data = set s.task_data id (advanced t n);
}

module _ {s : Server} {id : ℕ} {t : Task} {vs : List Iovec} {sent : ℕ}
    (w : InProgress s id t vs sent) (n : ℕ) (short : sent + n < sum_lengths vs) where
  pub total-eq : add_size t.progress (n % 2 ^ 64) ≡ sent + n
  total-eq = omega (arith, w.progress, w.small)

  pub not_done :
      leb (total_length 0 (take t.num_iovecs (s.arrays t.buff))) (add_size t.progress (n % 2 ^ 64))
      ≡ false
  not_done = rw (original-take w, total-eq) (ground (arith, total_length-sum 0 vs, w.small, short))

  pub vector_ops_progress-ok :
      vector_ops_progress id (pos n) (add_size t.progress (n % 2 ^ 64)) s
      ≡ ok tt (refilled s id t vs (sent + n) n)
  unfolding vector_ops_progress
  vector_ops_progress-ok = ground (arith, w.found, w.count, original-take w, total-eq)

  pub refilled-InProgress :
      InProgress (refilled s id t vs (sent + n) n) id (advanced t n) vs (sent + n)
  refilled-InProgress = record {
    found = get_elem?-set_self s.task_data id (advanced t n) (get_elem?_lt s.task_data id w.found);
    original = ground (arith, w.apart, w.original);
    count = w.count;
    apart = w.apart;
    progress = total-eq;
    small = w.small;
    rest = rw (==_self t.iovs) (refill-drop (sent + n) vs w.small);
  }
