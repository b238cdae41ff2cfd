-- ===== src/RecordList/Checkpoints.antt =====
-- `psly_handle_records` of cfilesforhazardpointer/hazard_long.c: it notes the records that it goes past
-- (`prevs_`), and where the one that it stands on was given back it goes back to the last of them that was
-- not, in place of the head.
pub mod Same
pub mod Place
pub mod Alone
pub mod Walk
pub mod Set
mod Examples
pub mod Back
use psly_algorithm.Base.{
  ℕ, zero, suc, ◌/◌, ◌%◌, ◌-◌, true, false, ◌||◌, Option, none, some, ◌==◌, ltb, if◌then◌else◌,
  update,
}
use psly_algorithm.Prog.{Prog, ret, out_of_fuel, crash, ◌>>=◌, ◌>>◌}
use psly_algorithm.Pool.{Layout, Memory, read}
use psly_algorithm.RecordList.{
  Task, Local, Flag, record_flag, search_flag, remove_flag, read_word, read_pointer, read_self,
  write_word, swap_word, drop_ref, key_above, give_back, take_my, drop_my,
}
use psly_algorithm.RecordList.Word.{
  address, node_version, ref_count, next_address_version, plus_record, new_next, moved_on,
  link_changed,
}

-- `MAXPREV`; `STEPBIT` is 0, so that every record has a place of its own up to it.
abbrev pub max_prev : ℕ
max_prev = 1024

-- `Prevs`: a record that was passed, and its word.
pub record Prevs : Type 0 where
  pub r : ℕ
  pub r_next : ℕ

-- `prevs_`, where `none` is NULL, and `steps`.
pub record Trail : Type 0 where
  pub prevs : ℕ → Option Prevs
  pub steps : ℕ

unfoldable pub bucket : ℕ → ℕ
bucket steps = if ltb steps max_prev then steps else max_prev - 1

-- The record `prev` is passed.
unfoldable pub pass : Trail → Local → Trail
pass c s = record {
  prevs =
      if ltb c.steps max_prev
      then update c.prevs c.steps (some (record { r = s.prev; r_next = s.prev_next }))
      else c.prevs;
  steps = suc c.steps;
}

-- One round of the loop that goes back, at the place `steps`; `earlier` is the loop before it.
unfoldable pub resume_at :
    Layout → (Trail → Local → Prog Memory ℕ) → Trail → Local → ℕ → Prog Memory ℕ → Prog Memory ℕ
resume_at l again c s steps earlier = elim (c.prevs (bucket steps)) [
  | none ↦ crash
  | some p ↦ (do
    w ← read_word p.r
    if moved_on l p.r_next w
        then earlier
        else again
            (record {
              prevs = update c.prevs (bucket steps) (some (record { r = p.r; r_next = w }));
              steps = steps;
            })
            (record s { prev = p.r; prev_next = w; curr = address l w }))
]

-- The loop from the place `steps` on; a place below 0 is outside of `prevs_`.
unfoldable pub resume_from :
    Layout → (Trail → Local → Prog Memory ℕ) → Trail → Local → ℕ → Prog Memory ℕ
resume_from l again c s zero = resume_at l again c s 0 crash
resume_from l again c s (suc k) = resume_at l again c s (suc k) (resume_from l again c s k)

-- `--steps`, then the loop.
unfoldable pub resume : Layout → (Trail → Local → Prog Memory ℕ) → Trail → Local → Prog Memory ℕ
resume l again c s = elim c.steps [ zero ↦ crash | suc k ↦ resume_from l again c s k ]

-- The parts of the function: `back` goes back along the trail, `again` is the head of the main loop,
-- both for the trail as it stands; `on` is the head of the main loop once `prev` is passed.
module _ (l : Layout) (t : Task) (fuel : ℕ) (back again on : Local → Prog Memory ℕ) where
  -- `New = prev->nextRecord`, then back or to the record that follows now
  unfoldable pub look_back : Local → Prog Memory ℕ
  look_back s = do
    new ← read_word s.prev
    if moved_on l s.prev_next new
        then back s
        else again (record s { prev_next = new; curr = address l new })

  -- The loop that links `append` behind `prev`
  unfoldable pub cas_append : ℕ → Local → ℕ → Prog Memory ℕ
  cas_append zero s append = out_of_fuel
  cas_append (suc n) s append = do
    self ← read_self append
    before ← swap_word s.prev s.prev_next (next_address_version l s.prev_next self)
    let retry = cas_append n (record s { prev_next = before }) append
    if before == s.prev_next
        then (do
          give_back l fuel (suc n) s.prev_next s.curr
          ret (elim t.flag [ record_flag ↦ 1 | _ ↦ 0 ]))
        else if moved_on l s.prev_next before
        then back s
        else if link_changed l s.prev_next before
        then again (record s { prev_next = before; curr = address l before })
        else retry

  -- The loop that counts `curr` up, for the word `found_next` that was read of it
  unfoldable pub increment : ℕ → Local → ℕ → Prog Memory ℕ
  increment zero s found_next = out_of_fuel
  increment (suc n) s found_next = do
    before ← swap_word s.curr found_next (plus_record l found_next)
    let retry = increment n s before
    if before == found_next
        then (do drop_my l fuel s.my; ret (ref_count l (plus_record l found_next)))
        else if node_version l found_next == node_version l before
        then if ref_count l before == 0 then again (record s { curr = address l before }) else retry
        else look_back s

  -- `curr` is the tail or has a higher key.
  unfoldable pub at_place : ℕ → Local → Prog Memory ℕ
  at_place n s = elim t.flag [
    | search_flag ↦ ret 0
    | remove_flag ↦ (do
      self ← read_self s.curr
      if address l s.prev_next == address l self then ret 0 else cas_append n s s.curr)
    | record_flag ↦ (do
      my ← take_my l fuel t.key s.my
      self ← read_self s.curr
      write_word my.0 (new_next l my.1 self)
      cas_append n (record s { my = some my }) my.0)
  ]

  -- `curr` has the key, and `w` was read of it as a live word.
  unfoldable pub at_key : ℕ → Local → ℕ → Prog Memory ℕ
  at_key n s w = if s.removed then ret 0 else elim t.flag [
    | remove_flag ↦ (do
      left ← drop_ref l s.curr
      if ref_count l left == 0
          then again (record s { removed = true; curr = address l left })
          else ret (ref_count l left))
    | _ ↦ increment n s w
  ]

  -- `curr` has the key or a lower one; `curr_next` and `curr_key` were read of it.
  unfoldable pub at_entry : ℕ → Local → ℕ → ℕ → Prog Memory ℕ
  at_entry n s curr_next curr_key =
      let step = (do
        w ← read_word s.curr
        if node_version l curr_next == node_version l w
            then if ref_count l w == 0
              then again (record s { curr = address l w })
              else if curr_key == t.key
              then at_key n s w
              else on (record s { prev = s.curr; prev_next = w; curr = address l w })
            else look_back s) in
      elim t.flag [
        | search_flag ↦ if curr_key == t.key then ret (ref_count l curr_next) else step
        | _ ↦ step
      ]

-- `KeepPrev:`, the main loop
unfoldable pub keep_prev : Layout → Task → ℕ → ℕ → Trail → Local → Prog Memory ℕ
keep_prev l t fuel zero c s = out_of_fuel
keep_prev l t fuel (suc n) c s =
    let main = keep_prev l t fuel n in
    do
      curr_next ← read_word s.curr
      curr_key ← read_pointer s.curr
      new ← read_word s.prev
      let s' = record s { prev_next = new }
      if moved_on l s.prev_next new
          then resume l main c s
          else if link_changed l s.prev_next new
          then main c (record s { prev_next = new; curr = address l new })
          else if (s.curr == t.tail) || key_above curr_key t.key
          then at_place l t fuel (resume l main c) (main c) (main (pass c s')) n s'
          else at_entry l t fuel (resume l main c) (main c) (main (pass c s')) n s' curr_next
              curr_key

-- `psly_handle_records`; what earlier calls of the thread have left in `prevs_` is an argument.
unfoldable pub handle_records : Layout → Task → (ℕ → Option Prevs) → ℕ → ℕ → Prog Memory ℕ
handle_records l t prevs fuel n = do
  w ← read_word t.head
  keep_prev l t fuel n (record { prevs = prevs; steps = 0 })
      (record { prev = t.head; prev_next = w; curr = address l w; removed = false; my = none })

-- `psly_record`, `psly_remove` and `psly_search`, on the list that the bits 4 to 20 of the pointer name
unfoldable pub handle : Layout → Flag → (ℕ → Option Prevs) → ℕ → ℕ → ℕ → Prog Memory ℕ
handle l flag prevs fuel n pointer = do
  head ← read (λ m. (m.lists (pointer / 16 % 131072)).head)
  tail ← read (λ m. (m.lists (pointer / 16 % 131072)).tail)
  handle_records l (record { head = head; tail = tail; key = pointer; flag = flag }) prevs fuel n
