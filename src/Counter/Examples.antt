-- ===== src/Counter/Examples.antt =====
-- A run of the counter, and the theorems at the state in which it starts.
use psly_algorithm.Base.{ℕ, ◌+◌, ◌%◌, ◌^◌, ◌≡◌, refl, Option, none, some, List, [], ◌∷◌, arith}
use psly_algorithm.Prog.{Prog, ret, ◌>>=◌, run, Outcome, done, stuck, crashed, System, step, start}
use psly_algorithm.Prog.Advance.{advance, Reach-advance}
use psly_algorithm.Counter.Shared.{Stands, Acts}
use psly_algorithm.Counter.History.{fetched}
use psly_algorithm.Counter.Threads.{increments, counting, interleaved-Stands}
use psly_algorithm.Counter.{Counter, index, version_of, next_word, get_and_increment, zeroed}
use psly_algorithm.Counter.Alone.{Counts, get_and_increment-Counts}

zeroed-Counts : Counts zeroed 0
unfolding index version_of
zeroed-Counts = record { current = refl; owner = refl }

abbrev result : {M A : Type 0} → Outcome M A → Option A
result (done a m) = some a
result stuck = none
result crashed = none

-- Threads 3, 7, 3 and 3 in turn.
abbrev turns : Prog Counter (List ℕ)
turns = do
  a ← get_and_increment 1 3
  b ← get_and_increment 1 7
  c ← get_and_increment 1 3
  d ← get_and_increment 1 3
  ret (a ∷ b ∷ c ∷ d ∷ [])

turns-result : result (run turns zeroed) ≡ some (0 ∷ 1 ∷ 2 ∷ 3 ∷ [])
unfolding get_and_increment index version_of next_word
turns-result = refl

get_and_increment-Counts_example :
    (m' : Counter) × (run (get_and_increment 1 7) zeroed ≡ done (0 % 2 ^ 32) m')
    × Counts m' ((0 + 1) % 2 ^ 64)
get_and_increment-Counts_example = get_and_increment-Counts zeroed 7 0 0 zeroed-Counts (omega arith)

-- Three threads, each with one call. Thread 2 reads the word, then thread 1 makes its call, whose last
-- access, the store of the version, comes next.
abbrev racing : System Counter (List ℕ)
racing = advance 1 8 (advance 2 1 (counting 2 3 (λ _. 1) zeroed))

interleaved-Stands_example :
    (s : List ℕ) × Stands racing.mem s
    × ((i : ℕ) (answers : List ℕ) → racing.thread i ≡ ret answers → answers ≡ fetched i s)
    × (i : ℕ) × (t : List ℕ) × Stands (advance 1 1 racing).mem t
    × Acts i racing.mem s (advance 1 1 racing).mem t
unfolding increments get_and_increment index version_of next_word
interleaved-Stands_example =
    interleaved-Stands 2 3 (λ _. 1) (omega arith) (λ i. omega arith)
      (Reach-advance 1 8 _ _ (Reach-advance 2 1 _ _ start)) (step 1 refl)

-- Thread 1 has fetched 0; thread 2, which read the word before, begins again and fetches 1.
racing-ends :
    ((advance 2 12 (advance 1 1 racing)).thread 1 ≡ ret (0 ∷ []))
    × ((advance 2 12 (advance 1 1 racing)).thread 2 ≡ ret (1 ∷ []))
unfolding increments get_and_increment index version_of next_word
racing-ends = (refl, refl)
