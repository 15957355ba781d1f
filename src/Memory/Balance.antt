-- ===== src/Memory/Balance.antt =====
-- What the count of src/debug_mem_ops.cpp is when memory is used as the C library allows.
use network_server.Base.{ℕ, ◌+◌, ◌%◌, ◌^◌, ◌<◌, ◌≡◌, refl, false, List, [], ◌∷◌, arith, ◌==◌}
use network_server.Memory.{
  Ledger, empty_ledger, update, malloc_debug, free_debug, MemoryOp, malloc_op, free_op, run_memory,
}

-- An allocation that has not been freed.
pub record Block : Type 0 where
  pub at_ptr : ℕ
  pub block_size : ℕ

abbrev pub total_size : List Block → ℕ
total_size [] = 0
total_size (b ∷ bs) = b.block_size + total_size bs

abbrev pub Fresh : ℕ → List Block → Type 0
Fresh ptr [] = Unit {0}
Fresh ptr (b ∷ bs) = ((b.at_ptr == ptr) ≡ false) × Fresh ptr bs

-- One block at the address is taken off the list.
pub data Removes (ptr : ℕ) (size : ℕ) : List Block → List Block → Type 0 where
  here : {bs : List Block} → Removes ptr size (record { at_ptr = ptr; block_size = size } ∷ bs) bs
  there :
      {b : Block} {bs cs : List Block} → Removes ptr size bs cs → Removes ptr size (b ∷ bs) (b ∷ cs)

-- Calls that allocate at addresses not in use and free blocks in use, from the blocks in use before
-- them to those in use after them.
pub data Uses : List Block → List MemoryOp → List Block → Type 0 where
  no_use : {bs : List Block} → Uses bs [] bs
  then_malloc :
      {bs cs : List Block} {ops : List MemoryOp} (ptr size : ℕ)
      → size < 2 ^ 64
      → Fresh ptr bs
      → Uses (record { at_ptr = ptr; block_size = size } ∷ bs) ops cs
      → Uses bs (malloc_op ptr size ∷ ops) cs
  then_free :
      {bs cs ds : List Block} {ops : List MemoryOp} (ptr size : ℕ)
      → Removes ptr size bs cs
      → Uses cs ops ds
      → Uses bs (free_op ptr ∷ ops) ds

abbrev Recorded : (ℕ → ℕ) → List Block → Type 0
Recorded m [] = Unit {0}
Recorded m (b ∷ bs) = (m b.at_ptr ≡ b.block_size) × (b.block_size < 2 ^ 64) × Recorded m bs

record Balanced (l : Ledger) (bs : List Block) : Type 0 where
  counted : l.mem_allocated ≡ total_size bs % 2 ^ 64
  recorded : Recorded l.ptr_to_alloc bs

update-Recorded :
    (m : ℕ → ℕ) (ptr size : ℕ) (bs : List Block)
    → Fresh ptr bs
    → Recorded m bs
    → Recorded (update m ptr size) bs
update-Recorded m ptr size [] _ _ = tt
update-Recorded m ptr size (b ∷ bs) (other, fresh) (now, small, more) =
    (rw other now, small, update-Recorded m ptr size bs fresh more)

malloc_debug-Balanced :
    (ptr size : ℕ) (l : Ledger) (bs : List Block)
    → size < 2 ^ 64
    → Fresh ptr bs
    → Balanced l bs
    → Balanced (malloc_debug ptr size l) (record { at_ptr = ptr; block_size = size } ∷ bs)
unfolding malloc_debug
malloc_debug-Balanced ptr size l bs small fresh balanced = record {
  counted = omega (arith, balanced.counted);
  recorded =
      (ground arith, small, update-Recorded l.ptr_to_alloc ptr size bs fresh balanced.recorded);
}

Removes-Recorded :
    (m : ℕ → ℕ) {ptr size : ℕ} {bs cs : List Block}
    → Removes ptr size bs cs
    → Recorded m bs
    → (m ptr ≡ size) × (size < 2 ^ 64) × Recorded m cs × (total_size bs ≡ size + total_size cs)
Removes-Recorded m here (now, small, more) = (now, small, more, refl)
Removes-Recorded m (there later) (now, small, more) =
    let (found, fits, rest, sum) = Removes-Recorded m later more in
    (found, fits, (now, small, rest), omega (arith, sum))

free_debug-Balanced :
    (ptr size : ℕ) (l : Ledger) (bs cs : List Block)
    → Removes ptr size bs cs
    → Balanced l bs
    → Balanced (free_debug ptr l) cs
unfolding free_debug
free_debug-Balanced ptr size l bs cs removes balanced =
    let (found, fits, rest, sum) = Removes-Recorded l.ptr_to_alloc removes balanced.recorded in
    record { counted = omega (arith, balanced.counted, found, fits, sum); recorded = rest }

run_memory-Balanced :
    (ops : List MemoryOp) (l : Ledger) (bs cs : List Block)
    → Uses bs ops cs
    → Balanced l bs
    → Balanced (run_memory ops l) cs
unfolding run_memory
run_memory-Balanced ops l bs cs no_use balanced = balanced
run_memory-Balanced ops l bs cs (then_malloc ptr size small fresh uses) balanced =
    run_memory-Balanced _ _ _ cs uses (malloc_debug-Balanced ptr size l bs small fresh balanced)
run_memory-Balanced ops l bs cs (then_free ptr size removes uses) balanced =
    run_memory-Balanced _ _ _ cs uses (free_debug-Balanced ptr size l bs _ removes balanced)

-- After calls from the start that allocate fewer than 2 ^ 64 bytes each, at addresses not in use, and
-- free blocks in use, the count is the total size of the blocks in use, modulo 2 ^ 64.
pub mem_allocated-total_size :
    (ops : List MemoryOp) (bs : List Block)
    → Uses [] ops bs
    → (run_memory ops empty_ledger).mem_allocated ≡ total_size bs % 2 ^ 64
mem_allocated-total_size ops bs uses =
    (run_memory-Balanced ops empty_ledger [] bs uses
      (record { counted = omega arith; recorded = tt })).counted
