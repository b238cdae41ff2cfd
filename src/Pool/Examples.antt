-- ===== src/Pool/Examples.antt =====
-- Small runs of the pool, and the theorems at them: two arrays of two records.
use psly_algorithm.Base.{
  ℕ, ◌<◌, ◌≡◌, refl, Option, none, some, List, [], ◌∷◌, arith, update, ◌==◌, if◌then◌else◌,
}
use psly_algorithm.Prog.{ret, ◌>>=◌, run, done, stuck, crashed, Outcome, System, step, start}
use psly_algorithm.Pool.{
  Layout, Memory, get_record, return_record, index_of, is_last, move_end, take_from, take_round,
  take_each,
}
use psly_algorithm.Pool.Holds.{IsPool}
use psly_algorithm.Pool.Get.{Got, Single, get_record-Got, Taken-IsPool}
use psly_algorithm.Pool.Take.{take_from-some, Taken}
use psly_algorithm.Pool.Return.{Spares, return_record-IsPool}
use psly_algorithm.Pool.Init.{init_pool, init_arrays, init_array, init_slots}
use psly_algorithm.Pool.Init.Fresh.{count_up, init_pool-IsPool}
use psly_algorithm.Pool.Worker.{Call, get, give, worker}
use psly_algorithm.Pool.Worker.History.{Versioned}
use psly_algorithm.Pool.Worker.History.Threads.{next_of, Returned, workers, interleaved-Versioned}
use psly_algorithm.Prog.History.{Had}
use psly_algorithm.Prog.Advance.{advance, Reach-advance}

abbrev small : Layout
small = record { ref_num = 16; idx_num = 1; arr_num = 1; list_num = 1 }

abbrev free : ℕ → List ℕ
free _ = count_up 0 2

init_pool-IsPool_example : IsPool small (init_pool small) free
init_pool-IsPool_example = init_pool-IsPool small

get_record-Got_example :
    Got small free ((c : ℕ) → c < 2 → Single (free c)) (run (get_record small 2) (init_pool small))
get_record-Got_example = get_record-Got small free 0 (init_pool small) (init_pool-IsPool small)

-- The result of a run.
abbrev result : {M A : Type 0} → Outcome M A → Option A
result (done a m) = some a
result stuck = none
result crashed = none

-- Of each array one record is given, array 0 first; then none is left.
get_record_twice :
    result {A = Option ℕ × Option ℕ × Option ℕ} (
      run
        (get_record small 2 >>= λ a.
          get_record small 2 >>= λ b. get_record small 2 >>= λ c. ret (a, b, c))
        (init_pool small))
    ≡ some (some 0, some 2, none)
unfolding get_record take_round take_each take_from index_of is_last move_end init_pool init_arrays
    init_array init_slots
get_record_twice = refl

-- The pool after array 0 has given its record 0.
first-Taken :
    (m : Memory) × (run (take_from small 2 0) (init_pool small) ≡ done (some 0) m)
    × Taken small (init_pool small) 0 (1 ∷ []) m
unfolding count_up
first-Taken =
    take_from-some small (init_pool small) 0 0 0 1 []
      ((init_pool-IsPool small).holds 0 (omega arith))

lent : Memory
lent = first-Taken.0

lent-IsPool : IsPool small lent (update free 0 (1 ∷ []))
unfolding lent
lent-IsPool =
    Taken-IsPool small free 0 (init_pool small) lent (1 ∷ []) (init_pool-IsPool small) first-Taken.2

return_record-IsPool_example :
    (m' : Memory) × (run (return_record small 1 0) lent ≡ done tt m')
    × IsPool small m' (update (update free 0 (1 ∷ [])) 0 (1 ∷ 0 ∷ []))
    × Spares small 0 lent m'
return_record-IsPool_example =
    return_record-IsPool small lent (update free 0 (1 ∷ [])) 0 0 1 lent-IsPool (omega arith)
      (omega arith) refl (omega arith)

-- Thread 0 takes a record while thread 1 returns record 0.
abbrev calls : ℕ → List Call
calls i = if i == 0 then get ∷ [] else give 0 ∷ []

-- Thread 1 has read the `next` of record 0; its next access stores the word with the tail bit.
abbrev returning : System Memory (Unit {0})
returning = advance 1 1 (workers small 2 calls lent)

interleaved-Versioned_example :
    Versioned small
      (Had next_of (workers small 2 calls lent) returning)
      (Returned calls)
      (λ r. (lent.records r).self)
      returning.mem
      (advance 1 1 returning).mem
unfolding worker return_record
interleaved-Versioned_example =
    interleaved-Versioned small 2 calls lent (Reach-advance 1 1 _ _ start) (step 1 refl)
