-- ===== src/RecordList/Set/Examples.antt =====
-- The theorems on the ordered list at a small memory: four arrays of four records, and one list with the
-- key 6 twice, in record 2 between the head 0 and the tail 1.
use psly_algorithm.Base.{
  ℕ, ◌+◌, ◌%◌, ◌<◌, ◌≤◌, length, ◌≡◌, refl, true, List, [], ◌∷◌, arith, ◌==◌, Bool-cases, inl, inr,
  eq-of-==, update, if◌then◌else◌,
}
use psly_algorithm.Prog.{run, done, System, Reach, step, start, later}
use psly_algorithm.Pool.{Layout, Memory, with_head, index_of, is_last}
use psly_algorithm.Pool.Holds.{IsPool, IsPool-update}
use psly_algorithm.Pool.Init.{init_pool, init_arrays, init_array, init_slots}
use psly_algorithm.Pool.Init.Fresh.{count_up, init_pool-IsPool}
use psly_algorithm.RecordList.{
  with_word, with_pointer, psly_search, psly_record, psly_remove, handle, handle_records, restart,
  keep_prev, at_entry, at_key, key_above,
}
use psly_algorithm.RecordList.Word.{
  word, address, ref_count, node_version, link_version, versions, counts, next_address_version,
  plus_record, new_next, minus_record, moved_on, link_changed,
}
use psly_algorithm.RecordList.Word.Fields.{Fields, updates-Fields}
use psly_algorithm.RecordList.Entries.{Entry}
use psly_algorithm.RecordList.Readers.{ReadCall, search, remove, reader, readers, Shrinks}
use psly_algorithm.RecordList.Readers.Threads.{interleaved-Shrinks}
use psly_algorithm.RecordList.Stores.{self_of}
use psly_algorithm.Prog.History.{Had}
use psly_algorithm.Prog.Advance.{advance, Reach-advance}
use psly_algorithm.RecordList.Round.{word_of}
use psly_algorithm.RecordList.Members.{Kept, IsPool-frame}
use psly_algorithm.RecordList.Search.{IsList, psly_search-IsList}
use psly_algorithm.RecordList.Set.{IsMap, Added, psly_record-IsMap}
use psly_algorithm.RecordList.Set.Remove.{Dropped, psly_remove-IsMap}

abbrev pub small : Layout
small = record { ref_num = 4; idx_num = 2; arr_num = 2; list_num = 1 }

abbrev pub free : ℕ → List ℕ
free = update (λ _. count_up 0 4) 0 (3 ∷ [])

-- Array 0 has given three records.
abbrev lent : Memory
lent = with_head (init_pool small) 0 3

lent-IsPool : IsPool small lent free
unfolding init_pool init_arrays init_array init_slots index_of is_last
lent-IsPool =
    IsPool-update 0 (init_pool-IsPool small)
      (record {
        chain = (refl, refl);
        before = [];
        behind = 3 ∷ [];
        split = refl;
        at_tail = (refl, refl);
        distinct = (refl, tt);
      })
      (λ c i o h. refl) (λ c o. ground arith) (λ r. refl)

abbrev pub linked : Memory
linked =
    record (with_pointer (with_word (with_word lent 0 (word small 1 0 0 2)) 2 (word small 2 0 0 1))
      2 6) { lists = λ _. record { head = 0; tail = 1 } }

abbrev pub entries : List Entry
entries = record { at = 2; key = 6; count = 2 } ∷ []

pub linked-IsList : IsList small linked 0 entries
unfolding address ref_count init_pool init_arrays init_array init_slots
linked-IsList = record {
  live = refl;
  linked = (refl, refl, refl, refl, refl, refl);
  sorted = (omega arith, tt, tt);
}

psly_search-IsList_example : run (psly_search small 2 2 6) linked ≡ done 2 linked
psly_search-IsList_example =
    psly_search-IsList small linked 6 2 2 entries linked-IsList (omega arith)

Kept-low : (r : ℕ) → r < 3 → Kept small free r
Kept-low r h c x lt e = elim (Bool-cases (c == 0)) [
  | inl here ↦
      let x3 : (x == 3) ≡ true = ground (arith, rw here at e) in
      ground (arith, eq-of-== x 3 x3, eq-of-== c 0 here)
  | inr other ↦ ground arith
]

pub linked-IsMap : IsMap small linked free 0 entries
unfolding address init_pool init_arrays init_array init_slots
linked-IsMap = record {
  pool =
      IsPool-frame small lent linked free lent-IsPool (λ r. ground arith) (λ r. ground arith) refl;
  list = linked-IsList;
  members = record {
    at_p = Kept-low 0 (omega arith);
    at_tail = (Kept-low 1 (omega arith), refl);
    at_entry = λ r h.
        let e : (2 == r) ≡ true = ground arith in
        rw (← eq-of-== 2 r e) (Kept-low 2 (omega arith), refl);
  };
  apart = (refl, tt);
}

psly_record-IsMap_example :
    Added small linked free 0 4 entries (run (psly_record small 2 3 4) linked)
psly_record-IsMap_example =
    psly_record-IsMap small linked free 4 0 3 entries linked-IsMap (omega arith) (omega arith)
      (omega arith)

pub free-length : (a : ℕ) → a < 4 → length (free a) ≤ 4
unfolding count_up
free-length a h = elim (Bool-cases (a == 0)) [
  | inl here ↦ rw here (omega arith)
  | inr other ↦ rw other (omega arith)
]

psly_remove-IsMap_example :
    Dropped small linked free 0 6 entries (run (psly_remove small 4 5 6) linked)
unfolding init_pool init_arrays init_array init_slots
psly_remove-IsMap_example =
    psly_remove-IsMap small linked free 6 4 1 entries linked-IsMap free-length refl
      (λ r h. let e : (2 == r) ≡ true = ground arith in rw (← eq-of-== 2 r e) (omega arith))
      (omega arith)

updates-Fields_example :
    Fields small
      (next_address_version small (word small 1 0 0 2) 5)
      (ref_count small (word small 1 0 0 2))
      (node_version small (word small 1 0 0 2))
      ((link_version small (word small 1 0 0 2) + 1) % versions small)
      (address small 5)
    × Fields small
        (plus_record small (word small 1 0 0 2))
        ((ref_count small (word small 1 0 0 2) + 1) % counts small)
        (node_version small (word small 1 0 0 2))
        (link_version small (word small 1 0 0 2))
        (address small (word small 1 0 0 2))
    × Fields small
        (new_next small (word small 1 0 0 2) 5)
        (1 % counts small)
        ((node_version small (word small 1 0 0 2) + 1) % versions small)
        (link_version small (word small 1 0 0 2))
        (address small 5)
    × Fields small
        (minus_record small (word small 1 0 0 2))
        0
        (node_version small (word small 1 0 0 2))
        (link_version small (word small 1 0 0 2))
        (address small (word small 1 0 0 2))
unfolding ref_count
updates-Fields_example = updates-Fields small (word small 1 0 0 2) 5 0 refl (omega arith) refl

-- Thread 0 removes a key while thread 1, which has made one access, searches: after eight accesses
-- thread 0 is at the one that counts.
abbrev read_calls : ℕ → List ReadCall
read_calls i = if i == 0 then remove 6 ∷ [] else search 6 ∷ []

abbrev counting : System Memory (Unit {0})
counting = advance 0 7 (advance 1 1 (readers small 2 4 read_calls linked))

interleaved-Shrinks_example :
    Shrinks small
      (Had word_of (readers small 2 4 read_calls linked) counting)
      (self_of linked)
      counting.mem
      (advance 0 1 counting).mem
unfolding reader psly_search psly_remove handle handle_records restart keep_prev moved_on
    link_changed at_entry at_key key_above address ref_count node_version link_version init_pool
    init_arrays init_array init_slots
interleaved-Shrinks_example =
    interleaved-Shrinks small 2 4 read_calls linked
      (Reach-advance 0 7 _ _ (Reach-advance 1 1 _ _ start)) (step 0 refl)

-- Record 2 has its last reference, and two threads remove its key.
abbrev last_ref : Memory
last_ref = with_word linked 2 (word small 1 0 0 1)

abbrev removals : ℕ → List ReadCall
removals i = remove 6 ∷ []

-- Both threads read a live word before one of them counts it down: the count wraps around to 15.
removals-wrap :
    (t : System Memory (Unit {0})) × Reach (readers small 2 4 removals last_ref) t
    × (ref_count small (word_of t.mem 2) ≡ 15)
unfolding reader psly_remove handle handle_records restart keep_prev moved_on link_changed at_entry
    at_key key_above address ref_count node_version link_version init_pool init_arrays init_array
    init_slots minus_record
removals-wrap =
    let r1 =
      later
        (later
          (later
            (later (later (later (later start (step 0 refl)) (step 0 refl)) (step 0 refl))
              (step 0 refl))
            (step 0 refl))
          (step 0 refl))
        (step 0 refl) in
    let r2 =
      later
        (later
          (later
            (later (later (later (later r1 (step 1 refl)) (step 1 refl)) (step 1 refl))
              (step 1 refl))
            (step 1 refl))
          (step 1 refl))
        (step 1 refl) in
    (_, later (later r2 (step 0 refl)) (step 1 refl), refl)
