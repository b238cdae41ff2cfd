-- ===== src/RecordList/Checkpoints/Same.antt =====
-- One round of the list of hazard_long.c run alone does what that of lockfreelist_now.c does.
use psly_algorithm.Base.{
  ℕ, zero, suc, ◌≡◌, refl, Bool, true, false, ◌||◌, arith, ◌==◌, ==_refl, Bool-cases, inl, inr, ◌∙◌,
  sym,
}
use psly_algorithm.Prog.{Prog, run}
use psly_algorithm.Pool.{Layout, Memory}
use psly_algorithm.RecordList.{
  Task, Local, Flag, record_flag, search_flag, remove_flag, key_above, with_word,
}
use psly_algorithm.RecordList as Plain
use psly_algorithm.RecordList.Checkpoints.{
  Trail, resume, pass, keep_prev, at_place, at_entry, at_key, cas_append, increment,
}
use psly_algorithm.RecordList.Word.{address, ref_count, node_version, minus_record}
use psly_algorithm.RecordList.Round.{word_of, key_of, moved_on-same, link_changed-same}

-- The walk stands behind the record `p`, and looks at the record `q`.
abbrev pub standing : Memory → Local → ℕ → ℕ → Local
standing m s p q = record s { prev = p; prev_next = word_of m p; curr = q }

-- The two programs, run alone, do the same.
abbrev pub Same : Memory → Prog Memory ℕ → Prog Memory ℕ → Type 0
Same m x y = run x m ≡ run y m

module _ (l : Layout) (t : Task) (fuel n : ℕ) (m : Memory) (c : Trail) (s : Local) (p q : ℕ)
    (live : (ref_count l (word_of m p) == 0) ≡ false) where
  abbrev main : Trail → Local → Prog Memory ℕ
  main = keep_prev l t fuel n

  abbrev plain : Local → Prog Memory ℕ
  plain = Plain.keep_prev l t fuel n

  abbrev here : Local
  here = standing m s p q

  abbrev stop : Bool
  stop = q == t.tail || key_above (key_of m q) t.key

  trail-place :
      stop ≡ true
      → Same m
          (keep_prev l t fuel (suc n) c here)
          (at_place l t fuel (resume l main c) (main c) (main (pass c here)) n here)
  unfolding keep_prev
  trail-place e =
      ground (arith, moved_on-same l (word_of m p) live, link_changed-same l (word_of m p))

  plain-place :
      stop ≡ true
      → Same m (Plain.keep_prev l t fuel (suc n) here) (Plain.at_place l t fuel plain n here)
  unfolding Plain.keep_prev
  plain-place e =
      ground (arith, moved_on-same l (word_of m p) live, link_changed-same l (word_of m p))

  trail-entry :
      stop ≡ false
      → Same m (keep_prev l t fuel (suc n) c here) (
          at_entry l t fuel
            (resume l main c)
            (main c)
            (main (pass c here))
            n
            here
            (word_of m q)
            (key_of m q))
  unfolding keep_prev
  trail-entry e =
      ground (arith, moved_on-same l (word_of m p) live, link_changed-same l (word_of m p))

  plain-entry :
      stop ≡ false
      → Same m
          (Plain.keep_prev l t fuel (suc n) here)
          (Plain.at_entry l t fuel plain n here (word_of m q) (key_of m q))
  unfolding Plain.keep_prev
  plain-entry e =
      ground (arith, moved_on-same l (word_of m p) live, link_changed-same l (word_of m p))

  -- A round, from its two ends.
  pub round-Same :
      (stop ≡ true
        → Same m
            (at_place l t fuel (resume l main c) (main c) (main (pass c here)) n here)
            (Plain.at_place l t fuel plain n here))
      → (stop ≡ false
          → Same m
              (at_entry l t fuel
                (resume l main c)
                (main c)
                (main (pass c here))
                n
                here
                (word_of m q)
                (key_of m q))
              (Plain.at_entry l t fuel plain n here (word_of m q) (key_of m q)))
      → Same m (keep_prev l t fuel (suc n) c here) (Plain.keep_prev l t fuel (suc n) here)
  round-Same place entry = elim (Bool-cases stop) [
    | inl e ↦ trail-place e ∙ place e ∙ sym (plain-place e)
    | inr e ↦ trail-entry e ∙ entry e ∙ sym (plain-entry e)
  ]

module _ (l : Layout) (t : Task) (fuel n : ℕ) (m : Memory)
    (back again on plain : Local → Prog Memory ℕ) (s : Local) (p q : ℕ) where
  abbrev at : Local
  at = standing m s p q

  abbrev next : ℕ
  next = address l (word_of m q)

  abbrev EntrySame : Type 0
  EntrySame =
      Same m (at_entry l t fuel back again on n at (word_of m q) (key_of m q))
        (Plain.at_entry l t fuel plain n at (word_of m q) (key_of m q))

  same_version : (node_version l (word_of m q) == node_version l (word_of m q)) ≡ true
  same_version = ==_refl (node_version l (word_of m q))

  -- The entry of the key, for the two flags that change it.
  abbrev pub KeySame : Flag → Type 0
  KeySame search_flag = Unit
  KeySame record_flag =
      Same m (at_key l t fuel back again on n at (word_of m q))
        (Plain.at_key l t fuel plain n at (word_of m q))
  KeySame remove_flag =
      Same m (at_key l t fuel back again on n at (word_of m q))
        (Plain.at_key l t fuel plain n at (word_of m q))

  module _ (f : Flag) (e : t.flag ≡ f) where
    entry-gone :
        (ref_count l (word_of m q) == 0) ≡ true
        → Same m (again (standing m s p next)) (plain (standing m s p next))
        → EntrySame
    unfolding at_entry Plain.at_entry
    entry-gone dead h =
        elim f as (λ x. t.flag ≡ x → EntrySame) [
          | record_flag ↦ λ e. ground (arith, same_version, h)
          | search_flag ↦ λ e. elim (Bool-cases (key_of m q == t.key)) [
            | inl same ↦ rw (e, same) refl
            | inr other ↦ ground (arith, same_version, h)
          ]
          | remove_flag ↦ λ e. ground (arith, same_version, h)
        ]
          e

    entry-found :
        (ref_count l (word_of m q) == 0) ≡ false
        → (key_of m q == t.key) ≡ true
        → KeySame f
        → EntrySame
    unfolding at_entry Plain.at_entry
    entry-found live same h =
        elim f as (λ x. t.flag ≡ x → KeySame x → EntrySame) [
          | record_flag ↦ λ e h. ground (arith, same_version, h)
          | search_flag ↦ λ e h. rw (e, same) refl
          | remove_flag ↦ λ e h. ground (arith, same_version, h)
        ]
          e h

    entry-past :
        (ref_count l (word_of m q) == 0) ≡ false
        → (key_of m q == t.key) ≡ false
        → Same m (on (standing m s q next)) (plain (standing m s q next))
        → EntrySame
    unfolding at_entry Plain.at_entry
    entry-past live other h =
        elim f as (λ x. t.flag ≡ x → EntrySame) [
          | record_flag ↦ λ e. ground (arith, same_version, h)
          | search_flag ↦ λ e. ground (arith, same_version, h)
          | remove_flag ↦ λ e. ground (arith, same_version, h)
        ]
          e

    -- The entry at `q`: it is deleted, or has the key, or a lower one.
    pub entry-Same :
        ((ref_count l (word_of m q) == 0) ≡ true
          → Same m (again (standing m s p next)) (plain (standing m s p next)))
        → ((ref_count l (word_of m q) == 0) ≡ false → (key_of m q == t.key) ≡ true → KeySame f)
        → ((ref_count l (word_of m q) == 0) ≡ false
            → (key_of m q == t.key) ≡ false
            → Same m (on (standing m s q next)) (plain (standing m s q next)))
        → EntrySame
    entry-Same gone key past = elim (Bool-cases (ref_count l (word_of m q) == 0)) [
      | inl dead ↦ entry-gone dead (gone dead)
      | inr live ↦ elim (Bool-cases (key_of m q == t.key)) [
        | inl same ↦ entry-found live same (key live same)
        | inr other ↦ entry-past live other (past live other)
      ]
    ]

  -- The link behind `p` is made at once.
  pub append-Same :
      (n append : ℕ)
      → Same m
          (cas_append l t fuel back again on n at append)
          (Plain.cas_append l t fuel plain n at append)
  unfolding cas_append Plain.cas_append
  append-Same zero append = refl
  append-Same (suc n) append = ground (arith, ==_refl (word_of m p))

  pub search_place-Same :
      t.flag ≡ search_flag
      → Same m (at_place l t fuel back again on n at) (Plain.at_place l t fuel plain n at)
  unfolding at_place Plain.at_place
  search_place-Same e = rw e refl

  pub remove_place-Same :
      t.flag ≡ remove_flag
      → Same m (at_place l t fuel back again on n at) (Plain.at_place l t fuel plain n at)
  unfolding at_place Plain.at_place
  remove_place-Same e = ground (arith, append-Same n q)

  increment-Same :
      (n : ℕ)
      → Same m
          (increment l t fuel back again on n at (word_of m q))
          (Plain.increment l t fuel plain n at (word_of m q))
  unfolding increment Plain.increment
  increment-Same zero = refl
  increment-Same (suc n) = ground (arith, ==_refl (word_of m q))

  -- The entry of the key is counted up at once.
  pub record_key-Same :
      t.flag ≡ record_flag
      → Same m
          (at_key l t fuel back again on n at (word_of m q))
          (Plain.at_key l t fuel plain n at (word_of m q))
  unfolding at_key Plain.at_key
  record_key-Same e = ground (arith, increment-Same n)

  pub removed_key-Same :
      s.removed ≡ true
      → Same m
          (at_key l t fuel back again on n at (word_of m q))
          (Plain.at_key l t fuel plain n at (word_of m q))
  unfolding at_key Plain.at_key
  removed_key-Same e = rw e refl

  -- The entry of the key is counted down; where it was the last reference, the walk goes on.
  pub remove_key-Same :
      t.flag ≡ remove_flag
      → (let left = minus_record l (word_of m q) in
          Same
            (with_word m q left)
            (again (record at { removed = true; curr = address l left }))
            (plain (record at { removed = true; curr = address l left })))
      → Same m
          (at_key l t fuel back again on n at (word_of m q))
          (Plain.at_key l t fuel plain n at (word_of m q))
  unfolding at_key Plain.at_key
  remove_key-Same e h = ground (arith, h)
