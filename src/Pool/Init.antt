-- ===== src/Pool/Init.antt =====
-- `INIT_RESOURCE`, up to the lists: every record gets its number and is linked to the next of its
-- array.
pub mod Fresh
use psly_algorithm.Base.{ℕ, zero, suc, ◌+◌, ◌-◌, ◌%◌, ◌==◌, if◌then◌else◌, update}
use psly_algorithm.Pool.{Layout, Record, RecordQueue, Memory, array_len, array_num, slot}

-- The first `nextRecord` of record `j`; the last record of an array has an odd number.
abbrev pub first_word : ℕ → ℕ
first_word j = if j % 2 == 1 then 39415 else 39419

abbrev pub with_record : Memory → ℕ → Record → Memory
with_record m r x = record m { records = update m.records r x }

module _ (l : Layout) where
  abbrev pub inner_record : ℕ → ℕ → Record
  inner_record i j = record {
    next = j + 1;
    self = slot l i j;
    next_record = first_word j;
    pointer = 0;
  }

  abbrev pub last_record : ℕ → Record
  last_record i = record {
    next = array_len l;
    self = slot l i (array_len l - 1);
    next_record = 39415;
    pointer = 0;
  }

  -- `for(int j = 0; j < (1 << IDXNUM) - 1; ++j)`, with `n` rounds left
  unfoldable pub init_slots : ℕ → ℕ → ℕ → Memory → Memory
  init_slots i zero j m = m
  init_slots i (suc n) j m = init_slots i n (j + 1) (with_record m (slot l i j) (inner_record i j))

  unfoldable pub init_array : ℕ → Memory → Memory
  init_array i m =
      let filled = init_slots i (array_len l - 1) 0 m in
      let whole = with_record filled (slot l i (array_len l - 1)) (last_record i) in
      record whole { queues = update whole.queues i (record { head = 0; tail = array_len l - 1 }) }

  -- `for(int i = 0; i < (1 << ARRNUM); ++i)`, with `n` rounds left
  unfoldable pub init_arrays : ℕ → ℕ → Memory → Memory
  init_arrays zero i m = m
  init_arrays (suc n) i m = init_arrays n (i + 1) (init_array i m)

  -- Static data is zero at first.
  abbrev pub zeroed : Memory
  zeroed = record {
    records = λ _. record { next = 0; self = 0; next_record = 0; pointer = 0 };
    queues = λ _. record { head = 0; tail = 0 };
    record_take = 0;
    lists = λ _. record { head = 0; tail = 0 };
  }

  unfoldable pub init_pool : Memory
  init_pool = init_arrays (array_num l) 0 zeroed
