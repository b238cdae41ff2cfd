-- ===== src/Pool/Growing/Examples.antt =====
-- Small runs of the growing pool: one array of two records, and room for one more.
use psly_algorithm.Base.{ℕ, ◌≡◌, refl, Option, none, some, arith}
use psly_algorithm.Prog.{ret, ◌>>=◌, run, Outcome, done, stuck, crashed, System, step, start}
use psly_algorithm.Prog.Advance.{advance, Reach-advance}
use psly_algorithm.Pool.{Layout, index_of, is_last, move_end, take_from, take_each}
use psly_algorithm.Pool.Worker.{get}
use psly_algorithm.Pool.Growing.{
  Growing, take_once, take_signed, take_turns, search, in_pool, grow, get_record,
}
use psly_algorithm.Pool.Growing.Init.{
  init_arrays, init_queues, init_growing, init_growing-IsCounted,
}
use psly_algorithm.Pool.Init.Fresh.{count_up}
use psly_algorithm.Pool.Growing.Alone.{Keeps, Given}
use psly_algorithm.Pool.Growing.Given.{get_record-Given}
use psly_algorithm.Pool.Growing.Started.{init_growing-Keeps}
use psly_algorithm.Pool.Growing.Shared.{IsCounted, Grown}
use psly_algorithm.Pool.Growing.Threads.{Answered, perform, calling, interleaved-IsCounted}

abbrev small : Layout
small = record { ref_num = 16; idx_num = 1; arr_num = 1; list_num = 1 }

abbrev result : {M A : Type 0} → Outcome M A → Option A
result (done a m) = some a
result stuck = none
result crashed = none

-- The first call takes record 0; the second adds an array and takes its first record; for the
-- third there is no room.
get_record_thrice :
    result {A = Option ℕ × Option ℕ × Option ℕ} (
      run
        (get_record small 3 2 >>= λ a.
          get_record small 3 2 >>= λ b. get_record small 3 2 >>= λ c. ret (a, b, c))
        (init_growing small 1))
    ≡ some (some 0, some 2, none)
unfolding get_record in_pool search take_once take_turns take_signed take_each take_from grow
    index_of is_last move_end init_growing init_arrays init_queues
get_record_thrice = refl

-- Two calls of `get_Record`: thread 1 ends with record 0, then thread 2 comes as far as the test
-- whether the next array is there; it adds the array next.
abbrev racing : System Growing (Option ℕ)
racing = advance 2 16 (advance 1 6 (calling small 3 2 (λ _. get) (init_growing small 1)))

interleaved-IsCounted_example :
    IsCounted small racing.mem
    × IsCounted small (advance 2 1 racing).mem
    × Grown small racing.mem (advance 2 1 racing).mem
    × ((i : ℕ) (o : Option ℕ) → get ≡ get → racing.thread i ≡ ret o → Answered small o racing.mem)
unfolding perform get_record in_pool search take_once take_turns take_signed take_each take_from
    grow index_of is_last move_end init_growing init_arrays init_queues
interleaved-IsCounted_example =
    interleaved-IsCounted small 3 2 (λ _. get) (init_growing small 1)
      (init_growing-IsCounted small 1 (omega arith) (omega arith))
      (Reach-advance 2 16 _ _ (Reach-advance 1 6 _ _ start)) (step 2 refl)

get_record-Given_example :
    Given small 1 (λ _. count_up 0 2) (run (get_record small 2 2) (init_growing small 1))
unfolding init_growing init_arrays init_queues
get_record-Given_example =
    get_record-Given small 0 (omega arith) 0 (init_growing small 1) (λ _. count_up 0 2)
      (omega arith) (omega arith) (omega arith) (init_growing-Keeps small 1 (omega arith)).1

init_growing-Keeps_example :
    ((init_growing small 1).arrays ≡ 1) × Keeps small (init_growing small 1) (λ _. count_up 0 2)
init_growing-Keeps_example = init_growing-Keeps small 1 (omega arith)
