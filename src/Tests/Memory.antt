-- ===== src/Tests/Memory.antt =====
-- The count of allocated bytes.
use network_server.Base.{◌%◌, ◌^◌, ◌≡◌, refl, [], ◌∷◌, List, arith}
use network_server.Memory.{
  MemoryOp, malloc_op, free_op, empty_ledger, run_memory, malloc_debug, free_debug,
}
use network_server.Memory.Balance.{
  Block, total_size, here, there, Uses, no_use, then_malloc, then_free, mem_allocated-total_size,
}

abbrev two_and_one : List MemoryOp
two_and_one = malloc_op 100 8 ∷ malloc_op 200 4 ∷ free_op 100 ∷ []

abbrev left : List Block
left = record { at_ptr = 200; block_size = 4 } ∷ []

one_left : Uses [] two_and_one left
one_left =
    then_malloc 100 8 (omega arith) tt
      (then_malloc 200 4 (omega arith) (refl, tt) (then_free 100 8 (there here) no_use))

mem_allocated-total_size_example :
    (run_memory two_and_one empty_ledger).mem_allocated ≡ total_size left % 2 ^ 64
mem_allocated-total_size_example = mem_allocated-total_size two_and_one left one_left

-- The entry of a block stays after it was freed: freeing it again makes the count wrap around.
freed_twice :
    (run_memory (malloc_op 100 8 ∷ free_op 100 ∷ free_op 100 ∷ []) empty_ledger).mem_allocated
    ≡ 18446744073709551608
unfolding run_memory malloc_debug free_debug
freed_twice = refl
