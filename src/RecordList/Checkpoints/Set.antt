-- ===== src/RecordList/Checkpoints/Set.antt =====
-- The map of counted keys of hazard_long.c, run alone: the map of Set.antt.
use psly_algorithm.Base.{
  ℕ, suc, ◌*◌, ◌/◌, ◌%◌, ◌^◌, ◌<◌, ◌≤◌, ◌≡◌, refl, true, Option, List, length, ◌∙◌,
}
use psly_algorithm.Prog.{run, done}
use psly_algorithm.Pool.{Layout, Memory, array_num}
use psly_algorithm.RecordList.{Task, Flag, record_flag, search_flag, remove_flag}
use psly_algorithm.RecordList.Checkpoints.{Prevs, keep_prev, handle, handle_records}
use psly_algorithm.RecordList.Checkpoints.Alone.{Quiet-Same}
use psly_algorithm.RecordList.Checkpoints.Walk.{record-Same, remove-Same}
use psly_algorithm.RecordList.Word.{counts, ref_one}
use psly_algorithm.RecordList.Entries.{Entry, has_record, count_of}
use psly_algorithm.RecordList.Round.{word_of, behind}
use psly_algorithm.RecordList.Search.{IsList, fresh, search_walk}
use psly_algorithm.RecordList.Insert.{Apart-head}
use psly_algorithm.RecordList.Insert.Walk.{walk-Recorded}
use psly_algorithm.RecordList.Set.{IsMap, Added, Added-Recorded}
use psly_algorithm.RecordList.Set.Remove.{Dropped, Dropped-Removed, tail-out, walk-Removed}

-- The list that the bits 4 to 20 of a pointer name.
abbrev pub list_of : ℕ → ℕ
list_of k = k / 16 % 131072

abbrev trail_task : Memory → Flag → ℕ → Task
trail_task m flag k = record {
  head = (m.lists (list_of k)).head;
  tail = (m.lists (list_of k)).tail;
  key = k;
  flag = flag;
}

handle-keep_prev :
    (l : Layout) (m : Memory) (flag : Flag) (prevs : ℕ → Option Prevs) (fuel n k : ℕ)
    → run (handle l flag prevs fuel n k) m
      ≡ run
          (keep_prev l
            (trail_task m flag k)
            fuel
            n
            (record { prevs = prevs; steps = 0 })
            (behind l m (fresh (m.lists (list_of k)).head) (m.lists (list_of k)).head))
          m
unfolding handle handle_records
handle-keep_prev l m flag prevs fuel n k = refl

-- Run alone on a list in order, whatever earlier calls left in `prevs_`, with a round for each entry
-- and one more, psly_search of hazard_long.c returns the count of the key, 0 if it is not there, and
-- changes nothing.
pub search_trail-IsList :
    (l : Layout) (m : Memory) (prevs : ℕ → Option Prevs) (k fuel n : ℕ) (es : List Entry)
    → IsList l m (list_of k) es
    → suc (length es) ≤ n
    → run (handle l search_flag prevs fuel n k) m ≡ done (count_of k es) m
search_trail-IsList l m prevs k fuel n es h e =
    let head = (m.lists (list_of k)).head in
    let t = trail_task m search_flag k in
    handle-keep_prev l m search_flag prevs fuel n k
    ∙ Quiet-Same l t fuel m search_flag refl n _ (fresh head) head _ tt h.live
    ∙ search_walk l t fuel m refl es n (fresh head) head h.live h.linked h.sorted e

-- Run alone on a well-formed list, whatever earlier calls left in `prevs_`, for a key below 2^64
-- whose count stays below the number of counts with one more, psly_record of hazard_long.c returns
-- within a round for each entry and two more: either the key has one reference more, the pool has given
-- the record of its new entry, where the key had no reference, and otherwise no record, the list and
-- the pool are well formed again and the records that are neither free nor in the list keep their words and keys; or it crashes on the NULL of get_Record, and
-- then every queue of the pool has just one record.
pub record_trail-IsMap :
    (l : Layout) (m : Memory) (free : ℕ → List ℕ) (prevs : ℕ → Option Prevs) (k fuel n : ℕ)
    (es : List Entry)
    → IsMap l m free (list_of k) es
    → k < 2 ^ 64
    → suc (count_of k es) < counts l
    → suc (suc (length es)) ≤ n
    → Added l m free (list_of k) k es (run (handle l record_flag prevs (suc (suc fuel)) n k) m)
record_trail-IsMap l m free prevs k fuel n es set lt room h =
    let head = (m.lists (list_of k)).head in
    let t = trail_task m record_flag k in
    rw
      (handle-keep_prev l m record_flag prevs (suc (suc fuel)) n k
        ∙ record-Same l t fuel m free set.pool refl es n _ (fresh head) head refl set.list.live
            set.members set.apart set.list.linked)
      (Added-Recorded l m free (list_of k) k es lt set (
        walk-Recorded l t fuel m free refl set.pool es n head (fresh head) refl refl set.list.live
          set.members set.apart set.list.linked set.list.sorted room h))

-- Run alone on a well-formed list whose entries have 64-bit words, whatever earlier calls left in
-- `prevs_`, in a layout whose fields fill 64 bits and with a round of fuel for each record of a queue
-- and for each entry and four more, psly_remove of hazard_long.c returns the count that is left of the
-- key; the list has one reference less of it, and no entry after the last, when its record and no other
-- goes back to the pool, the list and the pool are well formed again, and the records that are neither
-- free nor in the list keep their words and keys.
pub remove_trail-IsMap :
    (l : Layout) (m : Memory) (free : ℕ → List ℕ) (prevs : ℕ → Option Prevs) (k fuel n : ℕ)
    (es : List Entry)
    → IsMap l m free (list_of k) es
    → ((a : ℕ) → a < array_num l → length (free a) ≤ fuel)
    → counts l * ref_one l ≡ 2 ^ 64
    → ((r : ℕ) → has_record r es ≡ true → word_of m r < 2 ^ 64)
    → length es ≤ n
    → Dropped l m free
        (list_of k)
        k
        es
        (run (handle l remove_flag prevs fuel (suc (suc (suc (suc n)))) k) m)
remove_trail-IsMap l m free prevs k fuel n es set enough full small h =
    let head = (m.lists (list_of k)).head in
    let t = trail_task m remove_flag k in
    rw
      (handle-keep_prev l m remove_flag prevs fuel (suc (suc (suc (suc n)))) k
        ∙ remove-Same l t fuel m free set.pool refl es (suc (suc (suc (suc n)))) _ (fresh head) head
            set.list.live set.members set.apart set.list.linked)
      (Dropped-Removed l m free (list_of k) k es set
        (tail-out l m (m.lists (list_of k)).tail es _ set.list.linked)
        (Apart-head head es set.apart)
        (walk-Removed l t fuel m free refl set.pool enough full es n head (fresh head) refl
          set.list.live set.members set.apart set.list.linked set.list.sorted small h))
