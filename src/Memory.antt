-- ===== src/Memory.antt =====
-- src/debug_mem_ops.cpp: the count of the bytes that are allocated, and the size of each allocation.
-- The address that `calloc` gives is an argument.
pub mod Balance
use network_server.Base.{ℕ, ◌==◌, if◌then◌else◌, add_size, sub_size, List, [], ◌∷◌}

-- `MEM_ALLOCATED` and `PTR_TO_ALLOC`. A key that the map does not have is inserted with the value 0.
pub record Ledger : Type 0 where
  pub mem_allocated : ℕ
  pub ptr_to_alloc : ℕ → ℕ

abbrev pub empty_ledger : Ledger
empty_ledger = record { mem_allocated = 0; ptr_to_alloc = λ p. 0 }

abbrev pub update : (ℕ → ℕ) → ℕ → ℕ → ℕ → ℕ
update m p n q = if q == p then n else m q

unfoldable pub malloc_debug : (ptr size : ℕ) → Ledger → Ledger
malloc_debug ptr size l = record {
  mem_allocated = add_size l.mem_allocated size;
  ptr_to_alloc = update l.ptr_to_alloc ptr size;
}

-- The entry stays in the map.
unfoldable pub free_debug : (ptr : ℕ) → Ledger → Ledger
free_debug ptr l = record l { mem_allocated = sub_size l.mem_allocated (l.ptr_to_alloc ptr) }

pub data MemoryOp : Type 0 where
  malloc_op : (ptr size : ℕ) → MemoryOp
  free_op : (ptr : ℕ) → MemoryOp

unfoldable pub run_memory : List MemoryOp → Ledger → Ledger
unfolding malloc_debug free_debug
run_memory [] l = l
run_memory (malloc_op ptr size ∷ ops) l = run_memory ops (malloc_debug ptr size l)
run_memory (free_op ptr ∷ ops) l = run_memory ops (free_debug ptr l)
