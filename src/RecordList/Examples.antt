-- ===== src/RecordList/Examples.antt =====
-- Small runs of the ordered list: two arrays of four records, one list.
use psly_algorithm.Base.{arith, ℕ, ◌≡◌, refl, Option, none, some, List, [], ◌∷◌}
use psly_algorithm.Prog.{Prog, ret, ◌>>=◌, ◌>>◌, run, done, stuck, crashed, Outcome}
use psly_algorithm.Pool.{
  Layout, Memory, get_record, take_round, take_from, index_of, move_end, append_loop, is_last,
  link_to, mark_last, return_record, take_each,
}
use psly_algorithm.Pool.Init.{init_pool, init_arrays, init_array, init_slots}
use psly_algorithm.RecordList.{
  psly_record, psly_remove, psly_search, handle, handle_records, restart, keep_prev, at_place,
  take_my, at_entry, at_key, cas_append, drop_my, give_back, increment, just_next_change, key_above,
  look_back,
}
use psly_algorithm.RecordList.Init.{init_lists}
use psly_algorithm.RecordList.Init.Started.{Started, init_lists-IsMap}
use psly_algorithm.RecordList.Word.{
  moved_on, new_next, link_changed, address, link_version, minus_record, next_address_version,
  node_version, plus_record, ref_count,
}

abbrev small : Layout
small = record { ref_num = 4; idx_num = 2; arr_num = 2; list_num = 1 }

abbrev result : {M A : Type 0} → Outcome M A → Option A
result (done a m) = some a
result stuck = none
result crashed = none

-- Two keys come, one of them twice; then it goes twice.
abbrev calls : Prog Memory (List ℕ)
calls = do
  init_lists small 2 1 0
  a ← psly_record small 9 20 6
  b ← psly_record small 9 20 4
  c ← psly_record small 9 20 6
  d ← psly_search small 9 20 6
  e ← psly_remove small 9 20 6
  f ← psly_remove small 9 20 6
  g ← psly_search small 9 20 6
  h ← psly_search small 9 20 4
  ret (a ∷ b ∷ c ∷ d ∷ e ∷ f ∷ g ∷ h ∷ [])

-- The counts that the calls answer.
calls-result : result (run calls (init_pool small)) ≡ some (1 ∷ 1 ∷ 2 ∷ 2 ∷ 1 ∷ 0 ∷ 0 ∷ 1 ∷ [])
unfolding init_pool psly_record psly_remove psly_search init_lists get_record take_round take_from
    init_arrays init_array init_slots index_of handle handle_records restart keep_prev moved_on
    new_next link_changed at_place take_my move_end append_loop is_last link_to mark_last
    return_record take_each address link_version minus_record next_address_version node_version
    plus_record ref_count at_entry at_key cas_append drop_my give_back increment just_next_change
    key_above look_back
calls-result = refl

-- `INIT_RESOURCE` at the small layout.
init_lists-IsMap_example : Started small 1 (run (init_lists small 2 1 0) (init_pool small))
init_lists-IsMap_example = init_lists-IsMap small 0 (omega arith) (omega arith)
