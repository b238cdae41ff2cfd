-- ===== src/RecordList/Init/Growing.antt =====
-- The second part of `INIT_RESOURCE` of cfilesforhazardpointer/hazard_long2.c: the two ends of each
-- list come from the growing pool.
use psly_algorithm.Base.{ℕ, zero, suc, ◌+◌, ◌≡◌, refl, Option, none, some}
use psly_algorithm.Prog.{Prog, ret, crash, ◌>>=◌, ◌>>◌, run, Outcome, done, stuck, crashed}
use psly_algorithm.Pool.{Layout, Memory, index_of, is_last, move_end, take_from, take_each}
use psly_algorithm.Pool.Growing.{
  Growing, in_pool, take_once, take_signed, take_turns, search, grow, get_record,
}
use psly_algorithm.Pool.Growing.Init.{init_arrays, init_queues, init_growing}
use psly_algorithm.RecordList.Word.{new_next}
use psly_algorithm.RecordList.{read_word, read_self, write_word}
use psly_algorithm.RecordList.Init.{write_list}

-- What is done with the two ends, before the list is written.
abbrev link_ends : Layout → ℕ → ℕ → ℕ → Prog Memory ℕ
link_ends l i head tail = do
  w ← read_word head
  self ← read_self tail
  write_word head (new_next l w self)
  write_list i head tail

-- The result of `get_Record` is used without a test for `NULL`.
abbrev take_end : Layout → ℕ → ℕ → Prog Growing ℕ
take_end l fuel rounds = do
  given ← get_record l fuel rounds
  elim given [ none ↦ crash | some r ↦ ret r ]

-- `for(int i = 0; i < listNum; ++i)`, with `n` rounds left
unfoldable pub init_growing_lists : Layout → ℕ → ℕ → ℕ → ℕ → Prog Growing (Unit {0})
init_growing_lists l fuel rounds zero i = ret tt
init_growing_lists l fuel rounds (suc n) i = do
  head ← take_end l fuel rounds
  tail ← take_end l fuel rounds
  in_pool (link_ends l i head tail)
  init_growing_lists l fuel rounds n (i + 1)

abbrev small : Layout
small = record { ref_num = 16; idx_num = 1; arr_num = 1; list_num = 1 }

abbrev ends : Outcome Growing (Unit {0}) → Option (ℕ × ℕ × ℕ)
ends (done a m) = some ((m.pool.lists 0).head, (m.pool.lists 0).tail, m.arrays)
ends stuck = none
ends crashed = none

-- One array of two records: its first record is the head, and the tail comes from a new array.
init_growing_lists-ends :
    ends (run (init_growing_lists small 3 2 1 0) (init_growing small 1)) ≡ some (0, 2, 2)
unfolding init_growing_lists get_record in_pool search take_once take_turns take_signed take_each
    take_from grow index_of is_last move_end init_growing init_arrays init_queues
init_growing_lists-ends = refl
