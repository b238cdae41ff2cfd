-- ===== src/RecordList/Round.antt =====
-- One round of the main loop of `psly_handle_records`, run alone: where the walk stops, where it goes
-- on, and what it finds.
use psly_algorithm.Base.{ℕ, suc, ◌≡◌, refl, true, false, ◌||◌, arith, ◌==◌, ==_refl}
use psly_algorithm.Prog.{run, Outcome, done}
use psly_algorithm.Pool.{Layout, Memory}
use psly_algorithm.RecordList.{
  Task, Local, Flag, record_flag, search_flag, remove_flag, key_above, keep_prev, at_place,
  at_entry, at_key,
}
use psly_algorithm.RecordList.Word.{address, ref_count, node_version, moved_on, link_changed}

-- The word of a record.
abbrev pub word_of : Memory → ℕ → ℕ
word_of m r = (m.records r).next_record

abbrev pub key_of : Memory → ℕ → ℕ
key_of m r = (m.records r).pointer

-- The walk stands behind the record `p`.
abbrev pub behind : Layout → Memory → Local → ℕ → Local
behind l m s p = record s { prev = p; prev_next = word_of m p; curr = address l (word_of m p) }

module _ (l : Layout) where
  pub moved_on-same : (w : ℕ) → (ref_count l w == 0) ≡ false → moved_on l w w ≡ false
  unfolding moved_on
  moved_on-same w h = rw (==_refl (node_version l w), h) refl

  pub link_changed-same : (w : ℕ) → link_changed l w w ≡ false
  unfolding link_changed
  link_changed-same w = ground arith

module _ (l : Layout) (t : Task) (fuel n : ℕ) (m : Memory) (s : Local) (p : ℕ)
    (live : (ref_count l (word_of m p) == 0) ≡ false) where
  abbrev next : ℕ
  next = address l (word_of m p)

  abbrev walk : Local → Outcome Memory ℕ
  walk x = run (keep_prev l t fuel n x) m

  pub round-place :
      (next == t.tail || key_above (key_of m next) t.key) ≡ true
      → run (keep_prev l t fuel (suc n) (behind l m s p)) m
        ≡ run (at_place l t fuel (keep_prev l t fuel n) n (behind l m s p)) m
  unfolding keep_prev
  round-place stop =
      ground (arith, moved_on-same l (word_of m p) live, link_changed-same l (word_of m p))

  pub round-entry :
      (next == t.tail || key_above (key_of m next) t.key) ≡ false
      → run (keep_prev l t fuel (suc n) (behind l m s p)) m
        ≡ run
            (at_entry l t fuel
              (keep_prev l t fuel n)
              n
              (behind l m s p)
              (word_of m next)
              (key_of m next))
            m
  unfolding keep_prev
  round-entry stop =
      ground (arith, moved_on-same l (word_of m p) live, link_changed-same l (word_of m p))

module _ (l : Layout) (t : Task) (fuel n : ℕ) (m : Memory) (s : Local)
    (live : (ref_count l (word_of m s.curr) == 0) ≡ false) where
  pub entry-pass :
      (f : Flag)
      → t.flag ≡ f
      → (key_of m s.curr == t.key) ≡ false
      → run (at_entry l t fuel (keep_prev l t fuel n) n s (word_of m s.curr) (key_of m s.curr)) m
        ≡ run (keep_prev l t fuel n (behind l m s s.curr)) m
  unfolding at_entry
  entry-pass record_flag e other = ground (arith, ==_refl (node_version l (word_of m s.curr)))
  entry-pass search_flag e other = ground (arith, ==_refl (node_version l (word_of m s.curr)))
  entry-pass remove_flag e other = ground (arith, ==_refl (node_version l (word_of m s.curr)))

  pub entry-found :
      (f : Flag)
      → t.flag ≡ f
      → (key_of m s.curr == t.key) ≡ true
      → run (at_entry l t fuel (keep_prev l t fuel n) n s (word_of m s.curr) (key_of m s.curr)) m
        ≡ elim f [
          | search_flag ↦ done (ref_count l (word_of m s.curr)) m
          | _ ↦ run (at_key l t fuel (keep_prev l t fuel n) n s (word_of m s.curr)) m
        ]
  unfolding at_entry
  entry-found record_flag e same = ground (arith, ==_refl (node_version l (word_of m s.curr)))
  entry-found search_flag e same = ground (arith, ==_refl (node_version l (word_of m s.curr)))
  entry-found remove_flag e same = ground (arith, ==_refl (node_version l (word_of m s.curr)))
