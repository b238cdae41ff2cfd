-- ===== src/RecordList/Search.antt =====
-- `psly_search` run alone: it finds the count of the key.
use psly_algorithm.Base.{
  ℕ, zero, suc, ◌%◌, ◌≤◌, ◌≡◌, refl, false, List, [], ◌∷◌, length, none, arith, ◌==◌, Bool-cases,
  inl, inr, ◌∙◌, sym, ap,
}
use psly_algorithm.Prog.{run, done}
use psly_algorithm.Pool.{Layout, Memory}
use psly_algorithm.RecordList.{
  Task, Local, Flag, search_flag, key_above, keep_prev, at_place, handle, handle_records, restart,
  psly_search,
}
use psly_algorithm.RecordList.Word.{address, ref_count}
use psly_algorithm.RecordList.Entries.{
  Entry, Linked, Sorted, Above-trans, count_of, count_of-Above, ne_of-key_above,
}
use psly_algorithm.RecordList.Round.{word_of, behind}
use psly_algorithm.RecordList.Steps.{step-tail, step-above, step-found, step-below}

-- The list `i` of the map holds the entries.
pub record IsList (l : Layout) (m : Memory) (i : ℕ) (es : List Entry) : Type 0 where
  pub live : (ref_count l (word_of m (m.lists i).head) == 0) ≡ false
  pub linked : Linked l m (m.lists i).tail (address l (word_of m (m.lists i).head)) es
  pub sorted : Sorted es

-- The call of `psly_handle_records` for a key.
abbrev pub task_of : Layout → Memory → Flag → ℕ → Task
task_of l m flag k = record {
  head = (m.lists (k % l.list_num)).head;
  tail = (m.lists (k % l.list_num)).tail;
  key = k;
  flag = flag;
}

abbrev pub fresh : ℕ → Local
fresh head = record { prev = head; prev_next = 0; curr = head; removed = false; my = none }

pub handle-keep_prev :
    (l : Layout) (m : Memory) (flag : Flag) (fuel n k : ℕ)
    → run (handle l flag fuel n k) m
      ≡ run
          (keep_prev l
            (task_of l m flag k)
            fuel
            n
            (behind l m (fresh (m.lists (k % l.list_num)).head) (m.lists (k % l.list_num)).head))
          m
unfolding handle handle_records restart
handle-keep_prev l m flag fuel n k = refl

module _ (l : Layout) (t : Task) (fuel : ℕ) (m : Memory) (f : t.flag ≡ search_flag) where
  search_place :
      (n : ℕ) (s : Local) → run (at_place l t fuel (keep_prev l t fuel n) n s) m ≡ done 0 m
  unfolding at_place
  search_place n s = rw f refl

  pub search_walk :
      (es : List Entry) (n : ℕ) (s : Local) (p : ℕ)
      → (ref_count l (word_of m p) == 0) ≡ false
      → Linked l m t.tail (address l (word_of m p)) es
      → Sorted es
      → suc (length es) ≤ n
      → run (keep_prev l t fuel n (behind l m s p)) m ≡ done (count_of t.key es) m
  search_walk es zero s p live k o h = absurd (omega arith)
  search_walk [] (suc n) s p live k o h = step-tail l t fuel n m s p 0 live k ∙ search_place n _
  search_walk (e ∷ es) (suc n) s p live (here, inner, key, count, alive, rest) o h =
      elim (Bool-cases (key_above e.key t.key)) [
        | inl above ↦ rw (ne_of-key_above e.key t.key above) (
            step-above l t fuel n m s p e.key live key above
            ∙ search_place n _
            ∙ ap (λ c. done c m)
                (sym (count_of-Above t.key es o.2 (Above-trans e.key t.key es above o.1))))
        | inr low ↦ elim (Bool-cases (e.key == t.key)) [
          | inl same ↦ rw same (
              step-found l t fuel n m s p e.key live inner key (rw count alive) low search_flag f
                same
              ∙ ap (λ c. done c m) count)
          | inr other ↦ rw other (
              step-below l t fuel n m s p e.key live inner key (rw count alive) low other
              ∙ search_walk es n s _ (rw count alive) rest o.2 (omega arith))
        ]
      ]

-- Run alone on a list, `psly_search` returns the count of the key, 0 if it is not there, and changes
-- nothing. A round for each entry and one more are enough.
pub psly_search-IsList :
    (l : Layout) (m : Memory) (k fuel n : ℕ) (es : List Entry)
    → IsList l m (k % l.list_num) es
    → suc (length es) ≤ n
    → run (psly_search l fuel n k) m ≡ done (count_of k es) m
unfolding psly_search
psly_search-IsList l m k fuel n es h e =
    handle-keep_prev l m search_flag fuel n k
    ∙ search_walk l (task_of l m search_flag k) fuel m refl es n
        (fresh (m.lists (k % l.list_num)).head) _ h.live h.linked h.sorted e
