-- ===== src/RecordList/Readers/Calls.antt =====
-- Every access of `psly_search` and `psly_remove` is one that the history of the words allows.
use psly_algorithm.Base.{ℕ, zero, suc, ◌≡◌, false, List, [], ◌∷◌, ◌==◌, ◌||◌, Bool-cases, inl, inr}
use psly_algorithm.Prog.{Prog, ◌>>=◌}
use psly_algorithm.Prog.Rely.{IsSafe-if, give_up-IsSafe}
use psly_algorithm.Prog.History.{
  Observed, Words, Seen, Ok, access-Ok, read-Ok, done-Ok, then-Ok, Obeys-Ok,
}
use psly_algorithm.Pool.{Layout, Memory, return_record}
use psly_algorithm.Pool.Worker.{Tagged}
use psly_algorithm.Pool.Worker.Tags.{return_record-Obeys}
use psly_algorithm.RecordList.{
  Task, Local, Flag, record_flag, search_flag, remove_flag, write_pointer, swap_word, drop_ref,
  key_above, give_back, restart, just_next_change, look_back, cas_append, at_place, at_key,
  at_entry, keep_prev, handle_records, handle, psly_search, psly_remove,
}
use psly_algorithm.RecordList.Word.{
  address, ref_count, node_version, next_address_version, moved_on, link_changed,
}
use psly_algorithm.RecordList.Round.{word_of, key_of}
use psly_algorithm.RecordList.Stores.{self_of}
use psly_algorithm.RecordList.Readers.{counted_down, ReadCall, search, remove, reader}
use psly_algorithm.RecordList.Readers.Changes.{
  Tagged-Shrinks, Shrinks-word, Shrinks-clear, Shrinks-swap, lives,
}

-- The flags of a search and of a removal.
data Reads : Flag → Type 0 where
  searches : Reads search_flag
  removes : Reads remove_flag

module _ (l : Layout) (self : ℕ → ℕ) (i : ℕ) where
  abbrev here : Observed Memory
  here = lives l self

  -- The head of the main loop, whatever it is called with.
  abbrev Goes : (Local → Prog Memory ℕ) → Type 0
  Goes again = (s : Local) (m : Memory) (d : Words) → Ok here i (again s) m d

  module _ {A : Type 0} {k : ℕ → Prog Memory A} (m : Memory) (d : Words) where
    clear-Ok :
        (r : ℕ)
        → ((n : Memory) (t : Words) → Ok here i (k 0) n t)
        → Ok here i (write_pointer r 0 >>= k) m d
    clear-Ok r next =
        access-Ok here i m d _ λ n t g v. (Shrinks-clear l (Seen t) self n r, λ _. next _ _)

    -- The new link leads to record `q`, whose number was read.
    swap-Ok :
        (r old q w : ℕ)
        → w ≡ self q
        → ((v : ℕ) (n : Memory) (t : Words) → Ok here i (k v) n t)
        → Ok here i (swap_word r old (next_address_version l old w) >>= k) m d
    swap-Ok r old q w e next =
        access-Ok here i m d _
          λ n t g v. (rw e (Shrinks-swap l (Seen t) self n r old q), λ _. next _ _ _)

    -- The word of the record had a reference when it was read.
    drop-Ok :
        (r w : ℕ)
        → Seen d r w
        → (ref_count l w == 0) ≡ false
        → ((v : ℕ) (n : Memory) (t : Words) → Ok here i (k v) n t)
        → Ok here i (drop_ref l r >>= k) m d
    drop-Ok r w seen live next = access-Ok here i m d _ λ n t g v.
        (Shrinks-word l (Seen t) self n r _ (counted_down w (g r w seen) live), λ _. next _ _ _)

  give_back-Ok :
      (fuel n local curr : ℕ) (m : Memory) (d : Words)
      → Ok here i (give_back l fuel n local curr) m d
  unfolding give_back
  give_back-Ok fuel zero local curr m d = give_up-IsSafe m d
  give_back-Ok fuel (suc n) local curr m d =
      read-Ok here i m d (λ m. self_of m curr)
        λ n1 t1 _ _.
          IsSafe-if n1 t1 (address l local == address l (self_of n1 curr))
            (λ _. done-Ok here i tt n1 t1)
            (λ _. clear-Ok n1 t1 (address l local) λ n2 t2.
              read-Ok here i n2 t2 (λ m. word_of m (address l local))
                λ n3 t3 _ _.
                  then-Ok here i (return_record l fuel (address l local)) _ n3 t3
                    (Obeys-Ok here i {G = Tagged l (λ _. Unit {0})} n3 t3
                      (λ had x y h. Tagged-Shrinks l had self x y h)
                      (return_record-Obeys l (λ _. Unit {0}) fuel (address l local) tt))
                    (λ _ n4 t4. give_back-Ok fuel n (word_of n3 (address l local)) curr n4 t4))

  -- The parts of `psly_handle_records` for one of the two flags.
  module _ (t : Task) (fuel : ℕ) (again : Local → Prog Memory ℕ) (h : Goes again) where
    restart-Ok : Goes (restart l t fuel again)
    unfolding restart
    restart-Ok s m d = read-Ok here i m d (λ m. word_of m t.head) λ n u _ _. h _ n u

    next_change-Ok :
        (s : Local) (new : ℕ) (m : Memory) (d : Words)
        → Ok here i (just_next_change l t fuel again s new) m d
    unfolding just_next_change
    next_change-Ok s new m d = h _ m d

    look_back-Ok : Goes (look_back l t fuel again)
    unfolding look_back
    look_back-Ok s m d =
        read-Ok here i m d (λ m. word_of m s.prev)
          λ n u _ _.
            IsSafe-if n u (moved_on l s.prev_next (word_of n s.prev)) (λ _. restart-Ok s n u)
              (λ _. next_change-Ok s (word_of n s.prev) n u)

    cas_append-Ok :
        (n : ℕ) (s : Local) (append : ℕ) (m : Memory) (d : Words)
        → Ok here i (cas_append l t fuel again n s append) m d
    unfolding cas_append
    cas_append-Ok zero s append m d = give_up-IsSafe m d
    cas_append-Ok (suc n) s append m d =
        read-Ok here i m d (λ m. self_of m append)
          λ n1 u1 _ v1.
            swap-Ok n1 u1 s.prev s.prev_next append (self_of n1 append) (v1.holds append)
              λ before n2 u2.
                IsSafe-if n2 u2 (before == s.prev_next)
                  (λ _.
                    then-Ok here i (give_back l fuel (suc n) s.prev_next s.curr) _ n2 u2
                      (give_back-Ok fuel (suc n) s.prev_next s.curr n2 u2)
                      (λ _ n3 u3. done-Ok here i _ n3 u3))
                  (λ _.
                    IsSafe-if n2 u2 (moved_on l s.prev_next before) (λ _. restart-Ok s n2 u2)
                      (λ _.
                        IsSafe-if n2 u2 (link_changed l s.prev_next before)
                          (λ _. next_change-Ok s before n2 u2)
                          (λ _. cas_append-Ok n (record s { prev_next = before }) append n2 u2)))

  -- The parts that look at the flag.
  module _ (head tail key fuel : ℕ) (again : Local → Prog Memory ℕ) (h : Goes again) where
    abbrev task : Flag → Task
    task f = record { head = head; tail = tail; key = key; flag = f }

    at_place-Ok : (f : Flag) → Reads f → (n : ℕ) → Goes (at_place l (task f) fuel again n)
    unfolding at_place
    at_place-Ok record_flag reads n s m d = elim reads [ ]
    at_place-Ok search_flag searches n s m d = done-Ok here i 0 m d
    at_place-Ok remove_flag removes n s m d =
        read-Ok here i m d (λ m. self_of m s.curr)
          λ n1 u1 _ _.
            IsSafe-if n1 u1 (address l s.prev_next == address l (self_of n1 s.curr))
              (λ _. done-Ok here i 0 n1 u1)
              (λ _. cas_append-Ok (task remove_flag) fuel again h n s s.curr n1 u1)

    at_key-Ok :
        (n : ℕ) (s : Local) (w : ℕ) (m : Memory) (d : Words)
        → Seen d s.curr w
        → (ref_count l w == 0) ≡ false
        → Ok here i (at_key l (task remove_flag) fuel again n s w) m d
    unfolding at_key
    at_key-Ok n s w m d seen live =
        IsSafe-if m d s.removed (λ _. done-Ok here i 0 m d)
          (λ _. drop-Ok m d s.curr w seen live λ left n1 u1.
            IsSafe-if n1 u1 (ref_count l left == 0) (λ _. h _ n1 u1) (λ _. done-Ok here i _ n1 u1))

    at_entry-Ok :
        (f : Flag)
        → Reads f
        → (n : ℕ) (s : Local) (w k : ℕ) (m : Memory) (d : Words)
        → Ok here i (at_entry l (task f) fuel again n s w k) m d
    unfolding at_entry
    at_entry-Ok record_flag reads n s w k m d = elim reads [ ]
    at_entry-Ok search_flag searches n s w k m d = elim (Bool-cases (k == key)) [
      | inl same ↦ rw same (done-Ok here i (ref_count l w) m d)
      | inr other ↦ rw other (
          read-Ok here i m d (λ m. word_of m s.curr)
            λ n1 u1 _ _.
              let v = word_of n1 s.curr in
              IsSafe-if n1 u1 (node_version l w == node_version l v)
                (λ _. IsSafe-if n1 u1 (ref_count l v == 0) (λ _. h _ n1 u1) (λ _. h _ n1 u1))
                (λ _. look_back-Ok (task search_flag) fuel again h s n1 u1))
    ]
    at_entry-Ok remove_flag removes n s w k m d =
        read-Ok here i m d (λ m. word_of m s.curr)
          λ n1 u1 _ v1.
            let v = word_of n1 s.curr in
            IsSafe-if n1 u1 (node_version l w == node_version l v)
              (λ _.
                IsSafe-if n1 u1 (ref_count l v == 0) (λ _. h _ n1 u1)
                  (λ live.
                    IsSafe-if n1 u1 (k == key) (λ _. at_key-Ok n s v n1 u1 (v1.current s.curr) live)
                      (λ _. h _ n1 u1)))
              (λ _. look_back-Ok (task remove_flag) fuel again h s n1 u1)

  keep_prev-Ok : (t : Task) → Reads t.flag → (fuel n : ℕ) → Goes (keep_prev l t fuel n)
  unfolding keep_prev
  keep_prev-Ok t reads fuel zero s m d = give_up-IsSafe m d
  keep_prev-Ok t reads fuel (suc n) s m d =
      let again = keep_prev l t fuel n in
      let h : Goes again = keep_prev-Ok t reads fuel n in
      read-Ok here i m d (λ m. word_of m s.curr)
        λ n1 u1 _ _.
          read-Ok here i n1 u1 (λ m. key_of m s.curr)
            λ n2 u2 _ _.
              read-Ok here i n2 u2 (λ m. word_of m s.prev)
                λ n3 u3 _ _.
                  let key = key_of n2 s.curr in
                  let new = word_of n3 s.prev in
                  IsSafe-if n3 u3 (moved_on l s.prev_next new)
                    (λ _. restart-Ok t fuel again h s n3 u3)
                    (λ _.
                      IsSafe-if n3 u3 (link_changed l s.prev_next new)
                        (λ _. next_change-Ok t fuel again h s new n3 u3)
                        (λ _.
                          IsSafe-if n3 u3 ((s.curr == t.tail) || key_above key t.key)
                            (λ _.
                              at_place-Ok t.head t.tail t.key fuel again h t.flag reads n _ n3 u3)
                            (λ _.
                              at_entry-Ok t.head t.tail t.key fuel again h t.flag reads n _
                                (word_of n1 s.curr) key n3 u3)))

  handle-Ok :
      (f : Flag)
      → Reads f
      → (fuel n key : ℕ) (m : Memory) (d : Words) → Ok here i (handle l f fuel n key) m d
  unfolding handle handle_records
  handle-Ok f reads fuel n key m d = read-Ok here i m d _ λ n1 u1 _ _.
      read-Ok here i n1 u1 _ λ n2 u2 _ _. restart-Ok _ fuel _ (keep_prev-Ok _ reads fuel n) _ n2 u2

  pub reader-Ok :
      (fuel n : ℕ) (calls : List ReadCall) (m : Memory) (d : Words)
      → Ok here i (reader l fuel n calls) m d
  unfolding reader psly_search psly_remove
  reader-Ok fuel n [] m d = done-Ok here i tt m d
  reader-Ok fuel n (search key ∷ calls) m d =
      then-Ok here i (handle l search_flag fuel n key) _ m d
        (handle-Ok search_flag searches fuel n key m d) (λ _. reader-Ok fuel n calls)
  reader-Ok fuel n (remove key ∷ calls) m d =
      then-Ok here i (handle l remove_flag fuel n key) _ m d
        (handle-Ok remove_flag removes fuel n key m d) (λ _. reader-Ok fuel n calls)
