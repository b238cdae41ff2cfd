-- ===== src/RecordList/Init.antt =====
-- The second part of `INIT_RESOURCE`: each list of `map` gets its head and its tail from the pool.
pub mod Spare
pub mod Started
pub mod Growing
use psly_algorithm.Base.{ℕ, zero, suc, ◌+◌, none, some, update}
use psly_algorithm.Prog.{Prog, ret, act, crash, ◌>>=◌, ◌>>◌}
use psly_algorithm.Pool.{Layout, Memory, get_record}
use psly_algorithm.RecordList.Word.{new_next}
use psly_algorithm.RecordList.{read_word, read_self, write_word}

-- The result of `get_Record` is used without a test for `NULL`.
abbrev pub taken : Layout → ℕ → Prog Memory ℕ
taken l fuel = do given ← get_record l fuel; elim given [ none ↦ crash | some r ↦ ret r ]

abbrev pub write_list : ℕ → ℕ → ℕ → Prog Memory ℕ
write_list i head tail =
    act (λ m. (0, record m { lists = update m.lists i (record { head = head; tail = tail }) })) ret

-- `for(int i = 0; i < listNum; ++i)`, with `n` rounds left
unfoldable pub init_lists : Layout → ℕ → ℕ → ℕ → Prog Memory (Unit {0})
init_lists l fuel zero i = ret tt
init_lists l fuel (suc n) i = do
  head ← taken l fuel
  tail ← taken l fuel
  w ← read_word head
  self ← read_self tail
  write_word head (new_next l w self)
  write_list i head tail
  init_lists l fuel n (i + 1)
