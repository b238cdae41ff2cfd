-- ===== src/RecordList/Checkpoints/Examples.antt =====
-- The list of hazard_long.c at the small memory of Set/Examples.antt.
use psly_algorithm.Base.{ℕ, ◌≡◌, refl, true, none, arith, ◌==◌, eq-of-==, if◌then◌else◌}
use psly_algorithm.Prog.{ret, run, done}
use psly_algorithm.Pool.Init.{init_pool, init_arrays, init_array, init_slots}
use psly_algorithm.RecordList.{Local, record_flag, search_flag, remove_flag}
use psly_algorithm.RecordList.Word.{word, address, ref_count, node_version, moved_on}
use psly_algorithm.RecordList.Round.{behind}
use psly_algorithm.RecordList.Search.{fresh}
use psly_algorithm.RecordList.Set.{Added}
use psly_algorithm.RecordList.Set.Remove.{Dropped}
use psly_algorithm.RecordList.Set.Examples.{
  small, free, linked, entries, linked-IsList, linked-IsMap, free-length,
}
use psly_algorithm.RecordList.Checkpoints.{resume, resume_from, resume_at, bucket, pass}
use psly_algorithm.RecordList.Checkpoints
use psly_algorithm.RecordList.Checkpoints.Back.{Resumed, trail, noted, resume-Resumed}
use psly_algorithm.RecordList.Checkpoints.Set.{
  search_trail-IsList, record_trail-IsMap, remove_trail-IsMap,
}

search_trail-IsList_example :
    run (Checkpoints.handle small search_flag (λ _. none) 2 2 6) linked ≡ done 2 linked
search_trail-IsList_example =
    search_trail-IsList small linked (λ _. none) 6 2 2 entries linked-IsList (omega arith)

record_trail-IsMap_example :
    Added small linked free 0 4 entries
      (run (Checkpoints.handle small record_flag (λ _. none) 2 3 4) linked)
record_trail-IsMap_example =
    record_trail-IsMap small linked free (λ _. none) 4 0 3 entries linked-IsMap (omega arith)
      (omega arith) (omega arith)

remove_trail-IsMap_example :
    Dropped small linked free 0 6 entries
      (run (Checkpoints.handle small remove_flag (λ _. none) 4 5 6) linked)
unfolding init_pool init_arrays init_array init_slots
remove_trail-IsMap_example =
    remove_trail-IsMap small linked free (λ _. none) 6 4 1 entries linked-IsMap free-length refl
      (λ r h. let e : (2 == r) ≡ true = ground arith in rw (← eq-of-== 2 r e) (omega arith))
      (omega arith)

-- The walk has passed the head and then record 2, which was another entry then: its word had another
-- version of the node.
abbrev walked : ℕ → Local
walked j =
    if j == 0
    then behind small linked (fresh 0) 0
    else record (behind small linked (fresh 0) 2) { prev_next = word small 2 5 0 1 }

resume-Resumed_example :
    Resumed small
      (λ c s. ret s.prev)
      (trail (λ _. none) walked 2)
      (walked 1)
      linked
      (noted walked)
      1
      (resume small (λ c s. ret s.prev) (trail (λ _. none) walked 2) (walked 1))
unfolding moved_on address node_version ref_count init_pool init_arrays init_array init_slots
resume-Resumed_example =
    resume-Resumed small (λ c s. ret s.prev) (walked 1) linked (λ _. none) walked 1 (omega arith)
      refl

-- It goes on behind the head.
resumed :
    run (resume small (λ c s. ret s.prev) (trail (λ _. none) walked 2) (walked 1)) linked
    ≡ done 0 linked
unfolding resume resume_from resume_at bucket pass moved_on address node_version ref_count init_pool
    init_arrays init_array init_slots
resumed = refl
