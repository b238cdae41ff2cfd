-- ===== src/RecordList/Place.antt =====
-- What the walk does at its place, run alone: count a record up, or link a new one behind `prev`.
use psly_algorithm.Base.{ℕ, suc, ◌≡◌, refl, false, none, some, arith, ◌==◌, ==_refl, ◌∙◌, sym, ap}
use psly_algorithm.Prog.{Prog, run, run->>=, ◌>>=◌, ◌>>◌, done, crashed}
use psly_algorithm.Pool.{Layout, Memory, get_record}
use psly_algorithm.RecordList.{
  Task, Local, record_flag, at_place, at_key, increment, drop_my, take_my, cas_append, give_back,
  with_word, with_pointer, read_self, write_word,
}
use psly_algorithm.RecordList.Word.{address, ref_count, plus_record, new_next, next_address_version}
use psly_algorithm.RecordList.Stores.{
  self_of, self-with_word, self-with_pointer, word-with_word, word-with_pointer,
}
use psly_algorithm.RecordList.Round.{word_of}

module _ (l : Layout) (t : Task) (fuel n : ℕ) (again : Local → Prog Memory ℕ) where
  -- The link behind `prev`, where nothing lies between `prev` and `curr`.
  appended :
      (s : Local) (m : Memory) (append : ℕ)
      → t.flag ≡ record_flag
      → word_of m s.prev ≡ s.prev_next
      → address l s.prev_next ≡ address l (self_of m s.curr)
      → run (cas_append l t fuel again (suc n) s append) m
        ≡ done 1 (with_word m s.prev (next_address_version l s.prev_next (self_of m append)))
  unfolding cas_append give_back
  appended s m append f same named = ground (
    arith,
    self-with_word m s.prev (next_address_version l s.prev_next (self_of m append)) s.curr,
    ==_refl s.prev_next,
    ==_refl (address l s.prev_next),
  )

  place-taken :
      (s : Local) (m : Memory)
      → t.flag ≡ record_flag
      → s.my ≡ none
      → run (at_place l t fuel again (suc n) s) m
        ≡ run
            (do
              my ← take_my l fuel t.key none
              self ← read_self s.curr
              write_word my.0 (new_next l my.1 self)
              cas_append l t fuel again (suc n) (record s { my = some my }) my.0)
            m
  unfolding at_place
  place-taken s m f own = ground arith

module _ (l : Layout) (t : Task) (fuel n : ℕ) (m : Memory) (s : Local)
    (again : Local → Prog Memory ℕ) (f : t.flag ≡ record_flag) (own : s.my ≡ none) where
  -- `curr` has the key.
  pub count_up_key :
      s.removed ≡ false
      → run (at_key l t fuel again (suc n) s (word_of m s.curr)) m
        ≡ done
            (ref_count l (plus_record l (word_of m s.curr)))
            (with_word m s.curr (plus_record l (word_of m s.curr)))
  unfolding at_key increment drop_my
  count_up_key r = ground (arith, ==_refl (word_of m s.curr))

  -- There is no record left.
  pub place-crashed :
      (m₁ : Memory)
      → run (get_record l fuel) m ≡ done none m₁
      → run (at_place l t fuel again (suc n) s) m ≡ crashed
  unfolding at_place take_my
  place-crashed m₁ got =
      place-taken l t fuel n again s m f own
      ∙ rw (run->>= (take_my l fuel t.key none) _ m, run->>= (get_record l fuel) _ m, got) refl

  -- The record `my` is given, and linked between `p` and `curr`.
  module _ (m₁ : Memory) (my : ℕ) where
    abbrev pub inserted : ℕ → ℕ → Memory
    inserted w v = with_word (with_word (with_pointer m₁ my t.key) my w) s.prev v

    linked_in :
        (my == s.prev) ≡ false
        → word_of m₁ s.prev ≡ s.prev_next
        → address l s.prev_next ≡ address l (self_of m₁ s.curr)
        → run
            (do
              self ← read_self s.curr
              write_word my (new_next l (word_of m₁ my) self)
              cas_append l t fuel again (suc n) (record s { my = some (my, word_of m₁ my) }) my)
            (with_pointer m₁ my t.key)
          ≡ done 1 (
              inserted
                (new_next l (word_of m₁ my) (self_of m₁ s.curr))
                (next_address_version l s.prev_next (self_of m₁ my)))
    linked_in other same named =
        let w = new_next l (word_of m₁ my) (self_of m₁ s.curr) in
        ap
          (λ self.
            run
              (write_word my (new_next l (word_of m₁ my) self)
                >> cas_append l t fuel again (suc n) (record s { my = some (my, word_of m₁ my) })
                    my)
              (with_pointer m₁ my t.key))
          (self-with_pointer m₁ my t.key s.curr)
        ∙ appended l t fuel n again (record s { my = some (my, word_of m₁ my) }) _ my f
            (word-with_word (with_pointer m₁ my t.key) my w s.prev other
              ∙ word-with_pointer m₁ my t.key s.prev
              ∙ same)
            (named
              ∙ ap (address l) (
                  sym (
                    self-with_word (with_pointer m₁ my t.key) my w s.curr
                    ∙ self-with_pointer m₁ my t.key s.curr)))
        ∙ ap
            (λ x. done 1 (
              inserted (new_next l (word_of m₁ my) (self_of m₁ s.curr))
                (next_address_version l s.prev_next x)))
            (self-with_word (with_pointer m₁ my t.key) my w my ∙ self-with_pointer m₁ my t.key my)

    pub place-inserted :
        run (get_record l fuel) m ≡ done (some my) m₁
        → (my == s.prev) ≡ false
        → word_of m₁ s.prev ≡ s.prev_next
        → address l s.prev_next ≡ address l (self_of m₁ s.curr)
        → run (at_place l t fuel again (suc n) s) m
          ≡ done 1 (
              inserted
                (new_next l (word_of m₁ my) (self_of m₁ s.curr))
                (next_address_version l s.prev_next (self_of m₁ my)))
    unfolding at_place take_my
    place-inserted got other same named =
        place-taken l t fuel n again s m f own
        ∙ rw (run->>= (take_my l fuel t.key none) _ m, run->>= (get_record l fuel) _ m, got)
            (linked_in other same named)
