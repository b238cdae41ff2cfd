-- ===== src/RecordList/Remove.antt =====
-- The end of `psly_remove` for one entry, run alone: count it down, and at zero unlink it and give its
-- record back.
pub mod Walk
pub mod Unlink
use psly_algorithm.Base.{
  ℕ, zero, suc, ◌+◌, ◌-◌, ◌%◌, ◌<◌, ◌≤◌, ◌≡◌, refl, Bool, true, false, ◌||◌, List, [], ◌∷◌, length,
  none, some, arith, ◌==◌, ==_refl, Bool-cases, inl, inr, ◌∙◌, sym, ap,
}
use psly_algorithm.Prog.{Prog, ret, run, run->>=, ◌>>=◌, ◌>>◌, and_then, Outcome, done}
use psly_algorithm.Pool.{Layout, Memory, return_record}
use psly_algorithm.RecordList.{
  Task, Local, Flag, remove_flag, key_above, keep_prev, at_place, at_key, cas_append, give_back,
  with_word, with_pointer,
}
use psly_algorithm.RecordList.Word.{
  address, ref_count, node_version, next_address_version, minus_record, moved_on, link_changed,
}
use psly_algorithm.RecordList.Round.{word_of, key_of, behind, moved_on-same, link_changed-same}
use psly_algorithm.RecordList.Stores.{self_of}

-- The walk stands behind `p`, and sees the record `q`, past one that it has removed.
abbrev pub past : Layout → Memory → Local → ℕ → ℕ → Local
past l m s p q = record s { prev = p; prev_next = word_of m p; curr = q; removed = true }

module _ (l : Layout) (t : Task) (fuel n : ℕ) (m : Memory) (s : Local)
    (f : t.flag ≡ remove_flag) where
  -- The key is not there.
  pub place-absent :
      (p : ℕ)
      → address l (self_of m (address l (word_of m p))) ≡ address l (word_of m p)
      → run (at_place l t fuel (keep_prev l t fuel n) n (behind l m s p)) m ≡ done 0 m
  unfolding at_place
  place-absent p e = ground (arith, ==_refl (address l (word_of m p)))

  -- The entry stays, with one reference less.
  pub key-stays :
      (w : ℕ)
      → s.removed ≡ false
      → (ref_count l (minus_record l (word_of m s.curr)) == 0) ≡ false
      → run (at_key l t fuel (keep_prev l t fuel n) n s w) m
        ≡ done
            (ref_count l (minus_record l (word_of m s.curr)))
            (with_word m s.curr (minus_record l (word_of m s.curr)))
  unfolding at_key
  key-stays w r h = ground arith

  -- The entry has lost its last reference.
  pub key-removed :
      (w : ℕ)
      → s.removed ≡ false
      → (ref_count l (minus_record l (word_of m s.curr)) == 0) ≡ true
      → run (at_key l t fuel (keep_prev l t fuel n) n s w) m
        ≡ run
            (keep_prev l t fuel n
              (record s { removed = true; curr = address l (minus_record l (word_of m s.curr)) }))
            (with_word m s.curr (minus_record l (word_of m s.curr)))
  unfolding at_key
  key-removed w r h = ground arith

  pub round-past :
      (p q : ℕ)
      → (ref_count l (word_of m p) == 0) ≡ false
      → (q == t.tail || key_above (key_of m q) t.key) ≡ true
      → run (keep_prev l t fuel (suc n) (past l m s p q)) m
        ≡ run (at_place l t fuel (keep_prev l t fuel n) n (past l m s p q)) m
  unfolding keep_prev
  round-past p q live stop =
      ground (arith, moved_on-same l (word_of m p) live, link_changed-same l (word_of m p))

  -- The place behind a removed record: the link goes past it, and it goes back to the pool.
  place-unlink :
      (again : Local → Prog Memory ℕ) (p q : ℕ)
      → (address l (word_of m p) == address l (self_of m q)) ≡ false
      → run (at_place l t fuel again (suc n) (past l m s p q)) m
        ≡ run (cas_append l t fuel again (suc n) (past l m s p q) q) m
  unfolding at_place
  place-unlink again p q o = ground arith

module _ (l : Layout) (fuel : ℕ) where
  give_back-last :
      (n local q : ℕ) (m : Memory)
      → address l local ≡ address l (self_of m q)
      → run (give_back l fuel (suc n) local q) m ≡ done tt m
  unfolding give_back
  give_back-last n local q m e = ground (arith, ==_refl (address l local))

  -- A record that goes back loses its key first.
  abbrev pub cleared : Memory → ℕ → Memory
  cleared m local = with_pointer m (address l local) 0

  give_back-next :
      (n local q : ℕ) (m m' : Memory)
      → (address l local == address l (self_of m q)) ≡ false
      → run (return_record l fuel (address l local)) (cleared m local) ≡ done tt m'
      → run (give_back l fuel (suc n) local q) m
        ≡ run (give_back l fuel n (word_of (cleared m local) (address l local)) q) m'
  unfolding give_back
  give_back-next n local q m m' o ran =
      let step : run (give_back l fuel (suc n) local q) m
          ≡ run
              (return_record l fuel (address l local)
                >> give_back l fuel n (word_of (cleared m local) (address l local)) q)
              (cleared m local) =
        ground arith in
      step
      ∙ run->>= (return_record l fuel (address l local)) _ (cleared m local)
      ∙ ap
          (λ o.
            and_then o
              (λ _ x. run (give_back l fuel n (word_of (cleared m local) (address l local)) q) x))
          ran

  module _ (t : Task) (n : ℕ) (m m' : Memory) (s : Local) (p q : ℕ) (again : Local → Prog Memory ℕ)
      (f : t.flag ≡ remove_flag) where
    -- The link of `p` past the removed record.
    abbrev pub unlinked : Memory
    unlinked = with_word m p (next_address_version l (word_of m p) (self_of m q))

    won :
        run (cas_append l t fuel again (suc n) (past l m s p q) q) m
        ≡ run (give_back l fuel (suc n) (word_of m p) q >> ret 0) unlinked
    unfolding cas_append
    won = ground (arith, ==_refl (word_of m p))

    pub place-unlinked :
        (address l (word_of m p) == address l (self_of m q)) ≡ false
        → (address l (word_of m p) == address l (self_of unlinked q)) ≡ false
        → run (return_record l fuel (address l (word_of m p))) (cleared unlinked (word_of m p))
          ≡ done tt m'
        → address l (word_of (cleared unlinked (word_of m p)) (address l (word_of m p)))
          ≡ address l (self_of m' q)
        → n ≡ suc (n - 1)
        → run (at_place l t fuel again (suc n) (past l m s p q)) m ≡ done 0 m'
    place-unlinked o o' ran ends more =
        place-unlink l t fuel n m s f again p q o
        ∙ won
        ∙ run->>= (give_back l fuel (suc n) (word_of m p) q) _ unlinked
        ∙ ap (λ o. and_then o (λ _ x. run (ret 0) x))
            (give_back-next n (word_of m p) q unlinked m' o' ran
              ∙ ap
                  (λ i.
                    run
                      (give_back l fuel i
                        (word_of (cleared unlinked (word_of m p)) (address l (word_of m p))) q)
                      m')
                  more
              ∙ give_back-last (n - 1) _ q m' ends)
