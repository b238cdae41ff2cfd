-- ===== src/Pool/Growing.antt =====
-- The pool of cfilesforhazardpointer/hazard_long2.c, which begins with a few arrays and adds one where
-- `get_Record` finds no free record.
pub mod Fits
pub mod Shared
pub mod Threads
pub mod Init
pub mod Stock
pub mod Alone
pub mod Given
pub mod Started
mod Examples
use psly_algorithm.Base.{
  ℕ, zero, suc, ◌+◌, ◌-◌, ◌/◌, ◌%◌, ◌^◌, Bool, true, Option, none, some, ◌==◌, ltb, if◌then◌else◌,
  update,
}
use psly_algorithm.Prog.{Prog, ret, act, out_of_fuel, crash, ◌>>=◌, ◌>>◌}
use psly_algorithm.Pool.{
  Layout, Record, Memory, array_len, array_num, index_of, is_last, move_end, slot, read, cas_head,
  cas_tail, or_else, take_each,
}

-- `PSLY_Record_ARRAYNUM`, and which of `psly_Records` are not NULL; `1 << arr_num` is
-- `PSLY_Record_ARRAYNUM_MAX`.
pub record Growing : Type 0 where
  pub pool : Memory
  pub arrays : ℕ
  pub present : ℕ → Bool

-- `__sync_fetch_and_add(&recordTake, 1)` on a `long`
abbrev pub fetch_long : Prog Memory ℕ
fetch_long = act (λ m. (m.record_take, record m { record_take = (m.record_take + 1) % 2 ^ 64 })) ret

module _ (l : Layout) where
  -- The inner loop of the first two searches, which breaks where another thread moves the head.
  unfoldable pub take_once : ℕ → ℕ → Prog Memory (Option ℕ)
  take_once zero array = out_of_fuel
  take_once (suc fuel) array = do
    head_index ← read (λ m. (m.queues array).head)
    tail_index ← read (λ m. (m.queues array).tail)
    next_index ← read (λ m. (m.records (slot l array (index_of l head_index))).next)
    again ← read (λ m. (m.queues array).head)
    let retry = take_once fuel array
    if head_index == again
        then if index_of l head_index == index_of l tail_index
          then if is_last l next_index
            then ret none
            else (do cas_tail array tail_index (move_end l tail_index next_index); retry)
          else (do
            won ← cas_head array head_index (move_end l head_index next_index)
            if won == 1 then ret (some (slot l array (index_of l head_index))) else ret none)
        else retry

  -- `localR % localArrayNum`: a remainder below 0 is outside of `psly_Record_queues`.
  unfoldable pub take_signed : ℕ → ℕ → ℕ → Prog Memory (Option ℕ)
  take_signed fuel arrays taken =
      if ltb taken (2 ^ 63)
      then take_once fuel (taken % arrays)
      else if (2 ^ 64 - taken) % arrays == 0
      then take_once fuel 0
      else crash

  -- The second search, with `n` rounds left
  unfoldable pub take_turns : ℕ → ℕ → ℕ → Prog Memory (Option ℕ)
  take_turns fuel arrays zero = ret none
  take_turns fuel arrays (suc n) = do
    taken ← fetch_long
    taken_record ← take_signed fuel arrays taken
    or_else taken_record (take_turns fuel arrays n)

  -- The three searches of `get_Record`: the newest array, the arrays that `recordTake` names, and
  -- every array in turn.
  unfoldable pub search : ℕ → ℕ → Prog Memory (Option ℕ)
  search fuel arrays = do
    newest ← take_once fuel (arrays - 1)
    or_else newest
        (do turn ← take_turns fuel arrays arrays; or_else turn (take_each l fuel arrays 0))

  -- The records of a new array, before it is published.
  abbrev pub new_record : ℕ → ℕ → Record
  new_record array i = record {
    next = if i == array_len l - 1 then array_len l else i + 1;
    self = slot l array i;
    next_record = 0;
    pointer = 0;
  }

  abbrev pub with_array : Memory → ℕ → Memory
  with_array m array = record m {
    records =
        λ r. if r / array_len l == array then new_record array (r % array_len l) else m.records r;
  }

-- A program of the pool, over the whole memory.
unfoldable pub in_pool : {A : Type 0} → Prog Memory A → Prog Growing A
in_pool (ret a) = ret a
in_pool (act f k) = act (λ m. ((f m.pool).0, record m { pool = (f m.pool).1 })) (λ w. in_pool (k w))
in_pool out_of_fuel = out_of_fuel
in_pool crash = crash

abbrev pub read_arrays : Prog Growing ℕ
read_arrays = act (λ m. (m.arrays, m)) ret

-- `psly_Records[array] == NULL`
abbrev pub is_missing : ℕ → Prog Growing ℕ
is_missing array = act (λ m. (if m.present array then 0 else 1, m)) ret

-- `__sync_bool_compare_and_swap(&psly_Records[array], NULL, ptr)`
abbrev pub publish : Layout → ℕ → Prog Growing ℕ
publish l array =
    act
      (λ m. if m.present array then (0, m) else (
        1,
        record m { pool = with_array l m.pool array; present = update m.present array true },
      ))
      ret

-- `__sync_bool_compare_and_swap(&PSLY_Record_ARRAYNUM, arrays, arrays + 1)`
abbrev pub count_array : ℕ → Prog Growing ℕ
count_array arrays =
    act (λ m. if m.arrays == arrays then (1, record m { arrays = arrays + 1 }) else (0, m)) ret

module _ (l : Layout) where
  -- The array behind the others is added, unless another thread does it.
  unfoldable pub grow : ℕ → Prog Growing (Unit {0})
  grow arrays = do
    now ← read_arrays
    if now == arrays
        then (do
          missing ← is_missing arrays
          if missing == 1 then (do publish l arrays; ret tt) else ret tt
          later ← read_arrays
          if later == arrays then (do count_array arrays; ret tt) else ret tt)
        else ret tt

  -- `get_Record`, with `n` rounds of its outer loop left
  unfoldable pub get_record : ℕ → ℕ → Prog Growing (Option ℕ)
  get_record fuel zero = out_of_fuel
  get_record fuel (suc n) = do
    arrays ← read_arrays
    taken_record ← in_pool (search l fuel arrays)
    let retry = get_record fuel n
    elim taken_record [
      | some r ↦ ret (some r)
      | none ↦ if arrays == array_num l then ret none else (do grow arrays; retry)
    ]
