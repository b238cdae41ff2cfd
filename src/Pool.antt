-- ===== src/Pool.antt =====
-- The pool of records of lockfreelist_now.c and its relatives: `1 << arrNum` arrays of
-- `1 << idxNum` records, each with a queue of free records linked through `next`.
pub mod Words
pub mod Chain
pub mod Holds
pub mod Take
pub mod Get
pub mod Return
pub mod Init
pub mod Worker
pub mod Growing
mod Examples
use psly_algorithm.Base.{
  ℕ, zero, suc, ◌+◌, ◌-◌, ◌*◌, ◌/◌, ◌%◌, ◌^◌, ◌≡◌, refl, Bool, true, false, Option, none, some,
  ◌==◌, if◌then◌else◌, update,
}
use psly_algorithm.Prog.{Prog, ret, act, out_of_fuel, ◌>>=◌, ◌>>◌}

-- The arguments `refNum`, `idxNum`, `arrNum` and `listNum` of `DEFINE_RESOURCE`.
pub record Layout : Type 0 where
  pub ref_num : ℕ
  pub idx_num : ℕ
  pub arr_num : ℕ
  pub list_num : ℕ

-- `struct Record`. Words are bit patterns; a pointer to a record is its `self`, array and index.
pub record Record : Type 0 where
  pub next : ℕ
  pub self : ℕ
  pub next_record : ℕ
  pub pointer : ℕ

-- `struct RecordQueue`
pub record RecordQueue : Type 0 where
  pub head : ℕ
  pub tail : ℕ

-- `struct RecordList`
pub record RecordList : Type 0 where
  pub head : ℕ
  pub tail : ℕ

-- The globals: the arrays of records, their queues, `recordTake` and the lists of `map`.
pub record Memory : Type 0 where
  pub records : ℕ → Record
  pub queues : ℕ → RecordQueue
  pub record_take : ℕ
  pub lists : ℕ → RecordList

module _ (l : Layout) where
  -- `1 << idxNum`, the number of records of an array
  abbrev pub array_len : ℕ
  array_len = 2 ^ l.idx_num

  -- `1 << arrNum`
  abbrev pub array_num : ℕ
  array_num = 2 ^ l.arr_num

  -- `w & IDXBIT`
  unfoldable pub index_of : ℕ → ℕ
  index_of w = w % array_len

  -- `(w & NEXTTAILBIT) == NEXTTAILBIT`
  unfoldable pub is_last : ℕ → Bool
  is_last w = w / array_len % 2 == 1

  -- `w | NEXTTAILBIT`
  unfoldable pub mark_last : ℕ → ℕ
  unfolding is_last
  mark_last w = if is_last w then w else w + array_len

  -- `(((w & TAILVERSIONBIT) + TAILVERSIONONE) & TAILVERSIONBIT) | (i & TAILIDXBIT)`: the next
  -- version of a head or a tail, at index `i`
  unfoldable pub move_end : ℕ → ℕ → ℕ
  move_end w i = (w / array_len + 1) % 2 ^ (32 - l.idx_num) * array_len + i % array_len

  -- `(((w & NEXTVERSIONBIT) + NEXTVERSIONONE) & NEXTVERSIONBIT) | (i & NEXTIDXBIT)`: the next
  -- version of a link, without the tail bit
  unfoldable pub link_to : ℕ → ℕ → ℕ
  link_to w i = (w / (2 * array_len) + 1) % 2 ^ (31 - l.idx_num) * (2 * array_len) + i % array_len

-- The record at index `i` of an array.
abbrev pub slot : Layout → ℕ → ℕ → ℕ
slot l array i = array * array_len l + i

abbrev pub with_next : Memory → ℕ → ℕ → Memory
with_next m r w = record m { records = update m.records r (record (m.records r) { next = w }) }

abbrev pub with_head : Memory → ℕ → ℕ → Memory
with_head m a w = record m { queues = update m.queues a (record (m.queues a) { head = w }) }

abbrev pub with_tail : Memory → ℕ → ℕ → Memory
with_tail m a w = record m { queues = update m.queues a (record (m.queues a) { tail = w }) }

-- The atomic accesses.
abbrev pub read : (Memory → ℕ) → Prog Memory ℕ
read f = act (λ m. (f m, m)) ret

abbrev pub write_next : ℕ → ℕ → Prog Memory ℕ
write_next r w = act (λ m. (w, with_next m r w)) ret

-- `__sync_bool_compare_and_swap`: 1 if the word was `old` and is now `new`
abbrev pub cas : (Memory → ℕ) → (Memory → ℕ → Memory) → ℕ → ℕ → Memory → ℕ × Memory
cas get put old new m = if get m == old then (1, put m new) else (0, m)

abbrev pub cas_head : ℕ → ℕ → ℕ → Prog Memory ℕ
cas_head a old new = act (cas (λ m. (m.queues a).head) (λ m w. with_head m a w) old new) ret

abbrev pub cas_tail : ℕ → ℕ → ℕ → Prog Memory ℕ
cas_tail a old new = act (cas (λ m. (m.queues a).tail) (λ m w. with_tail m a w) old new) ret

abbrev pub cas_next : ℕ → ℕ → ℕ → Prog Memory ℕ
cas_next r old new = act (cas (λ m. (m.records r).next) (λ m w. with_next m r w) old new) ret

-- `__sync_fetch_and_add(&recordTake, 1)`
abbrev pub fetch_take : Prog Memory ℕ
fetch_take = act (λ m. (m.record_take, record m { record_take = (m.record_take + 1) % 2 ^ 32 })) ret

-- A record found is returned; after a `break` the search goes on.
abbrev pub or_else : Option ℕ → Prog Memory (Option ℕ) → Prog Memory (Option ℕ)
or_else none rest = rest
or_else (some r) rest = ret (some r)

module _ (l : Layout) where
  -- The inner loop of `get_Record`: `none` where it breaks, since the queue has no record to give.
  unfoldable pub take_from : ℕ → ℕ → Prog Memory (Option ℕ)
  take_from zero array = out_of_fuel
  take_from (suc fuel) array = do
    head_index ← read (λ m. (m.queues array).head)
    tail_index ← read (λ m. (m.queues array).tail)
    next_index ← read (λ m. (m.records (slot l array (index_of l head_index))).next)
    again ← read (λ m. (m.queues array).head)
    if head_index == again
        then if index_of l head_index == index_of l tail_index
          then if is_last l next_index then ret none else (do
            cas_tail array tail_index (move_end l tail_index next_index)
            take_from fuel array)
          else (do
            won ← cas_head array head_index (move_end l head_index next_index)
            if won == 1
                then ret (some (slot l array (index_of l head_index)))
                else take_from fuel array)
        else take_from fuel array

  -- The `for` loops of `get_Record`, over `n` arrays from `i`: the first asks the array that
  -- `recordTake` names each time, the second every array in turn.
  unfoldable pub take_round : ℕ → ℕ → Prog Memory (Option ℕ)
  take_round fuel zero = ret none
  take_round fuel (suc n) = do
    taken ← fetch_take
    taken_record ← take_from fuel (taken % array_num l)
    or_else taken_record (take_round fuel n)

  unfoldable pub take_each : ℕ → ℕ → ℕ → Prog Memory (Option ℕ)
  take_each fuel zero i = ret none
  take_each fuel (suc n) i = do
    taken_record ← take_from fuel i
    or_else taken_record (take_each fuel n (i + 1))

  -- `get_Record`
  unfoldable pub get_record : ℕ → Prog Memory (Option ℕ)
  get_record fuel = do
    taken_record ← take_round fuel (array_num l)
    or_else taken_record (take_each fuel (array_num l) 0)

  -- The loop of `return_Record`, for the record `self` and the queue of `array`.
  unfoldable pub append_loop : ℕ → ℕ → ℕ → Prog Memory (Unit {0})
  append_loop zero array self = out_of_fuel
  append_loop (suc fuel) array self = do
    tail_index ← read (λ m. (m.queues array).tail)
    next_index ← read (λ m. (m.records (slot l array (index_of l tail_index))).next)
    again ← read (λ m. (m.queues array).tail)
    if tail_index == again
        then if is_last l next_index
          then (do
            won ←
                cas_next (slot l array (index_of l tail_index)) next_index
                  (link_to l next_index self)
            if won == 1
                then (do cas_tail array tail_index (move_end l tail_index self); ret tt)
                else append_loop fuel array self)
          else (do
            cas_tail array tail_index (move_end l tail_index next_index)
            append_loop fuel array self)
        else append_loop fuel array self

  -- `return_Record`: `record` names the record by its address.
  unfoldable pub return_record : ℕ → ℕ → Prog Memory (Unit {0})
  return_record fuel address = do
    local ← read (λ m. (m.records address).next)
    write_next address (mark_last l local)
    self ← read (λ m. (m.records address).self)
    append_loop fuel (self / array_len l % array_num l) self
