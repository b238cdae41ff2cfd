-- ===== src/RecordList/Checkpoints/Place.antt =====
-- A new record in its place, run alone: the two lists do the same.
use psly_algorithm.Base.{ℕ, ◌≡◌, refl, sym, Option, none, some, arith, ◌∙◌, ap}
use psly_algorithm.Prog.{
  Prog, ret, crash, run, run->>=, ◌>>=◌, ◌>>◌, Outcome, done, stuck, crashed, and_then,
}
use psly_algorithm.Pool.{Layout, Memory, get_record}
use psly_algorithm.RecordList.{
  Task, Local, record_flag, with_word, with_pointer, read_self, read_word, write_word,
  write_pointer, take_my,
}
use psly_algorithm.RecordList as Plain
use psly_algorithm.RecordList.Checkpoints.{at_place, cas_append}
use psly_algorithm.RecordList.Checkpoints.Same.{standing, Same, append-Same}
use psly_algorithm.RecordList.Word.{new_next}
use psly_algorithm.RecordList.Round.{word_of}
use psly_algorithm.RecordList.Stores.{self_of}

module _ (l : Layout) (t : Task) (fuel n : ℕ) (m : Memory)
    (back again on plain : Local → Prog Memory ℕ) (s : Local) (p q : ℕ) (f : t.flag ≡ record_flag)
    (own : s.my ≡ none) where
  abbrev at : Local
  at = standing m s p q

  -- What follows `get_Record`, up to the loop that links.
  abbrev linking : (Local → ℕ → Prog Memory ℕ) → Option ℕ → Prog Memory ℕ
  linking loop none = crash
  linking loop (some r) = do
    local_n ← read_word r
    write_pointer r t.key
    self ← read_self q
    write_word r (new_next l local_n self)
    loop (record at { my = some (r, local_n) }) r

  -- The memory at that loop.
  abbrev pub before_link : Memory → ℕ → Memory
  before_link m₁ r =
      with_word (with_pointer m₁ r t.key) r
        (new_next l (word_of m₁ r) (self_of (with_pointer m₁ r t.key) q))

  abbrev Loop : Type 0
  Loop = Local → ℕ → Prog Memory ℕ

  abbrev linked : Loop → Outcome Memory ℕ
  linked loop = and_then (run (get_record l fuel) m) (λ a m₁. run (linking loop a) m₁)

  abbrev linking_my : Loop → ℕ × ℕ → Prog Memory ℕ
  linking_my loop my = do
    self ← read_self q
    write_word my.0 (new_next l my.1 self)
    loop (record at { my = some my }) my.0

  -- The same with `take_my`.
  abbrev taking : Loop → Prog Memory ℕ
  taking loop = take_my l fuel t.key none >>= linking_my loop

  abbrev given : Option ℕ → Prog Memory (ℕ × ℕ)
  given a = elim a [
    | none ↦ crash
    | some r ↦ (do local_n ← read_word r; write_pointer r t.key; ret (r, local_n))
  ]

  given-linking :
      (loop : Loop) (o : Outcome Memory (Option ℕ))
      → and_then (and_then o (λ a m₁. run (given a) m₁)) (λ my m₁. run (linking_my loop my) m₁)
        ≡ and_then o (λ a m₁. run (linking loop a) m₁)
  given-linking loop (done none m₁) = refl
  given-linking loop (done (some r) m₁) = refl
  given-linking loop stuck = refl
  given-linking loop crashed = refl

  taking-linked : (loop : Loop) → run (taking loop) m ≡ linked loop
  unfolding take_my
  taking-linked loop =
      run->>= (get_record l fuel >>= given) (linking_my loop) m
      ∙ ap (λ o. and_then o (λ my m₁. run (linking_my loop my) m₁))
          (run->>= (get_record l fuel) given m)
      ∙ given-linking loop (run (get_record l fuel) m)

  trail-taking :
      run (at_place l t fuel back again on n at) m
      ≡ run (taking (cas_append l t fuel back again on n)) m
  unfolding at_place
  trail-taking = ground arith

  plain-taking :
      run (Plain.at_place l t fuel plain n at) m
      ≡ run (taking (Plain.cas_append l t fuel plain n)) m
  unfolding Plain.at_place
  plain-taking = ground arith

  linking-Same :
      (o : Outcome Memory (Option ℕ))
      → run (get_record l fuel) m ≡ o
      → ((m₁ : Memory) (r : ℕ)
          → run (get_record l fuel) m ≡ done (some r) m₁
          → word_of (before_link m₁ r) p ≡ word_of m p)
      → and_then o (λ a m₁. run (linking (cas_append l t fuel back again on n) a) m₁)
        ≡ and_then o (λ a m₁. run (linking (Plain.cas_append l t fuel plain n) a) m₁)
  linking-Same (done none m₁) e h = refl
  linking-Same (done (some r) m₁) e h = rw (← h m₁ r e) (
      append-Same l t fuel n (before_link m₁ r) back again on plain
        (record s { my = some (r, word_of m₁ r) }) p q n r)
  linking-Same stuck e h = refl
  linking-Same crashed e h = refl

  pub record_place-Same :
      ((m₁ : Memory) (r : ℕ)
        → run (get_record l fuel) m ≡ done (some r) m₁
        → word_of (before_link m₁ r) p ≡ word_of m p)
      → Same m (at_place l t fuel back again on n at) (Plain.at_place l t fuel plain n at)
  record_place-Same h =
      trail-taking
      ∙ taking-linked (cas_append l t fuel back again on n)
      ∙ linking-Same (run (get_record l fuel) m) refl h
      ∙ sym (taking-linked (Plain.cas_append l t fuel plain n))
      ∙ sym plain-taking
