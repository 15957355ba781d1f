-- ===== src/Server/Vectors.antt =====
-- src/callbacks/common.cpp: what is left of a vector of buffers after partial progress.
pub mod Remainder
pub mod Partial
use network_server.Base.{
  ℕ, zero, suc, ◌-◌, ◌+◌, List, [], ◌∷◌, ◌++◌, ltb, ◌==◌, if◌then◌else◌, add_size, ℤ, to_size,
  length, take, pure, ◌>>=◌, ◌>>◌,
}
use network_server.Lru.{Ptr, null}
use network_server.Server.{Iovec, Task, ServerCmd, task_at, modify_task, read_array, write_array}

-- The loop over the original vectors: the first that is not used up is cut, the rest are kept.
unfoldable pub remaining : ℕ → ℕ → List Iovec → List Iovec
remaining total read_so_far [] = []
remaining total read_so_far (v ∷ vs) =
    if ltb total (add_size read_so_far v.iov_len)
    then record {
      iov_base = v.iov_base + (total - read_so_far);
      iov_len = v.iov_len - (total - read_so_far);
    }
      ∷ vs
    else if add_size read_so_far v.iov_len == total
    then vs
    else remaining total (add_size read_so_far v.iov_len) vs

abbrev pub zero_iovec : Iovec
zero_iovec = record { iov_base = null; iov_len = 0 }

-- `memset` clears all `num` entries first, so the tail of the array is zero.
unfoldable pub pad : ℕ → List Iovec → List Iovec
pad zero vs = []
pad (suc n) [] = zero_iovec ∷ pad n []
pad (suc n) (v ∷ vs) = v ∷ pad n vs

unfoldable pub vector_ops_progress : ℕ → ℤ → ℕ → ServerCmd (Unit {0})
unfolding task_at modify_task read_array write_array remaining pad
vector_ops_progress task_id op_res_num total_progress = do
  task ← task_at task_id
  original ← read_array task.buff
  write_array task.iovs
      (pad task.num_iovecs (remaining total_progress 0 (take task.num_iovecs original)))
  modify_task task_id (λ t. record t { progress = add_size t.progress (to_size op_res_num) })

-- The sum of the lengths, as the callbacks compute it.
unfoldable pub total_length : ℕ → List Iovec → ℕ
total_length acc [] = acc
total_length acc (v ∷ vs) = total_length (add_size acc v.iov_len) vs
