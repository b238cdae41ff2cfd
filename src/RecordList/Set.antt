-- ===== src/RecordList/Set.antt =====
-- The map of counted keys that the lists stand for, and `psly_record` on it, run alone.
pub mod Remove
pub mod Examples
use psly_algorithm.Base.{
  ℕ, suc, ◌+◌, ◌%◌, ◌^◌, ◌<◌, ◌≤◌, ◌≡◌, refl, Bool, true, false, ◌||◌, List, [], ◌∷◌, length, arith,
  ◌==◌, Bool-cases, inl, inr, ◌∙◌, ap,
}
use psly_algorithm.Prog.{run, Outcome, done, crashed}
use psly_algorithm.Pool.{Layout, Memory, array_num}
use psly_algorithm.Pool.Holds.{IsPool}
use psly_algorithm.Pool.Get.{Single}
use psly_algorithm.RecordList.{record_flag, key_above, psly_record}
use psly_algorithm.RecordList.Word.{address, ref_count, counts}
use psly_algorithm.RecordList.Entries.{
  Entry, Linked, Sorted, Above, has_record, count_of, add_key, key_above-total,
}
use psly_algorithm.RecordList.Round.{word_of, key_of}
use psly_algorithm.RecordList.Search.{IsList, task_of, fresh, handle-keep_prev}
use psly_algorithm.RecordList.Members.{Lends, Kept, Named}
use psly_algorithm.RecordList.Insert.{Outside, Apart, Recorded, recorded, no_memory, Members}
use psly_algorithm.RecordList.Insert.Walk.{walk-Recorded}

-- List `i` holds the entries `es`, in records that are not free and that are not shared.
pub record IsMap (l : Layout) (m : Memory) (free : ℕ → List ℕ) (i : ℕ) (es : List Entry)
    : Type 0 where
  pub pool : IsPool l m free
  pub list : IsList l m i es
  pub members : Members l m free (m.lists i).tail (m.lists i).head es
  pub apart : Apart (m.lists i).head es

-- What a record keeps that is neither free nor in the list: its word, its key, and that it is not free.
pub record Others (l : Layout) (m m' : Memory) (free free' : ℕ → List ℕ) (head : ℕ)
    (es : List Entry) : Type 0 where
  pub words :
      (r : ℕ)
      → Kept l free r
      → (head == r) ≡ false
      → has_record r es ≡ false
      → word_of m' r ≡ word_of m r
  pub keys : (r : ℕ) → Kept l free r → has_record r es ≡ false → key_of m' r ≡ key_of m r
  pub kept : (r : ℕ) → Kept l free r → has_record r es ≡ false → Kept l free' r
  pub lists : m'.lists ≡ m.lists

-- The end of `psly_record`: the key has one more, in the record `my`, which the pool gives, if it had
-- none, and otherwise with the free records as they were; or there is no record for it.
pub data Added (l : Layout) (m : Memory) (free : ℕ → List ℕ) (i k : ℕ) (es : List Entry)
    : Outcome Memory ℕ → Type 0 where
  added :
      {m' : Memory} (my : ℕ) (free' : ℕ → List ℕ)
      → IsMap l m' free' i (add_key k my es)
      → Others l m m' free free' (m.lists i).head es
      → Lends l free free' my (count_of k es)
      → Added l m free i k es (done (suc (count_of k es)) m')
  full : ((c : ℕ) → c < array_num l → Single (free c)) → Added l m free i k es crashed

Above-add_key :
    (a k r : ℕ) (es : List Entry) → Above a es → key_above k a ≡ true → Above a (add_key k r es)
Above-add_key a k r [] h o = o
Above-add_key a k r (e ∷ es) h o = ground arith

Sorted-add_key : (k r : ℕ) (es : List Entry) → k < 2 ^ 64 → Sorted es → Sorted (add_key k r es)
Sorted-add_key k r [] lt s = (lt, tt, tt)
Sorted-add_key k r (e ∷ es) lt (own, above, rest) = elim (Bool-cases (e.key == k)) [
  | inl same ↦ rw same (own, above, rest)
  | inr other ↦ elim (Bool-cases (key_above e.key k)) [
    | inl high ↦ rw (other, high) (lt, high, (own, above, rest))
    | inr low ↦
        rw (other, low)
          (
            own,
            Above-add_key e.key k r es above (key_above-total e.key k own lt other low),
            Sorted-add_key k r es lt rest,
          )
  ]
]

module _ (l : Layout) (m : Memory) (free : ℕ → List ℕ) (i k : ℕ) (es : List Entry) (lt : k < 2 ^ 64)
    (set : IsMap l m free i es) where
  pub Added-Recorded :
      {o : Outcome Memory ℕ}
      → Recorded l m free (m.lists i).tail (m.lists i).head k es o
      → Added l m free i k es o
  Added-Recorded (no_memory all) = full all
  Added-Recorded
        (recorded {m'} my new free' v pool linked ref out fresh kept given value lone from lends) =
      rw value (
        added my free'
          (record {
            pool = pool;
            list = record {
              live = rw out.lists (rw ref set.list.live);
              linked = rw out.lists linked;
              sorted = Sorted-add_key k my es lt set.list.sorted;
            };
            members = rw out.lists (record {
              at_p = kept (m.lists i).head set.members.at_p;
              at_tail = (
                kept (m.lists i).tail set.members.at_tail.0,
                ap (address l) (out.selves (m.lists i).tail) ∙ set.members.at_tail.1,
              );
              at_entry = λ r h. elim (from r h) [
                | inl old ↦ (
                  kept r (set.members.at_entry r old).0,
                  ap (address l) (out.selves r) ∙ (set.members.at_entry r old).1,
                )
                | inr is_new ↦ given r is_new
              ];
            });
            apart = rw out.lists lone;
          })
          (record {
            words = λ r h o n. out.words r o n (fresh r h);
            keys = λ r h n. out.keys r n (fresh r h);
            kept = λ r h _. kept r h;
            lists = out.lists;
          })
          lends)

-- `psly_record` run alone on a list: it returns, with two rounds of fuel for the pool and one for each
-- entry and two more for its own loop. Either the key has one more than before, the pool has given the
-- record that its new entry is in, where the key had no reference, and otherwise no record, the list
-- is well formed again, and the records that are neither free nor in the list keep their words and keys and are still
-- not free; or it crashes, since every queue of the pool has just the record that it keeps back.
pub psly_record-IsMap :
    (l : Layout) (m : Memory) (free : ℕ → List ℕ) (k fuel n : ℕ) (es : List Entry)
    → IsMap l m free (k % l.list_num) es
    → k < 2 ^ 64
    → suc (count_of k es) < counts l
    → suc (suc (length es)) ≤ n
    → Added l m free (k % l.list_num) k es (run (psly_record l (suc (suc fuel)) n k) m)
unfolding psly_record
psly_record-IsMap l m free k fuel n es set lt room h =
    rw (handle-keep_prev l m record_flag (suc (suc fuel)) n k) (
      Added-Recorded l m free (k % l.list_num) k es lt set (
        walk-Recorded l (task_of l m record_flag k) fuel m free refl set.pool es n _
          (fresh (m.lists (k % l.list_num)).head) refl refl set.list.live set.members set.apart
          set.list.linked set.list.sorted room h))
