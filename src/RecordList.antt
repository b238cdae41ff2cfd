-- ===== src/RecordList.antt =====
-- The reference-counted ordered list of lockfreelist_now.c: `psly_handle_records` and its three
-- callers, an access at a time.
pub mod Word
pub mod Entries
pub mod Round
pub mod Steps
pub mod Search
pub mod Stores
pub mod Place
pub mod Members
pub mod Insert
pub mod Set
pub mod Remove
pub mod Readers
pub mod Init
pub mod Checkpoints
mod Examples
use psly_algorithm.Base.{
  ℕ, zero, suc, ◌+◌, ◌-◌, ◌*◌, ◌/◌, ◌%◌, ◌^◌, Bool, true, false, ◌&&◌, ◌||◌, not, Option, none,
  some, ◌==◌, ltb, if◌then◌else◌, update,
}
use psly_algorithm.Prog.{Prog, ret, act, out_of_fuel, crash, ◌>>=◌, ◌>>◌}
use psly_algorithm.Pool.{Layout, Record, Memory, read, get_record, return_record}
use psly_algorithm.RecordList.Word.{
  address, node_version, ref_count, next_address_version, plus_record, new_next, minus_record,
  moved_on, link_changed,
}

pub data Flag : Type 0 where
  record_flag search_flag remove_flag : Flag

abbrev pub with_word : Memory → ℕ → ℕ → Memory
with_word m r w = record m {
  records = update m.records r (record (m.records r) { next_record = w });
}

abbrev pub with_pointer : Memory → ℕ → ℕ → Memory
with_pointer m r p = record m {
  records = update m.records r (record (m.records r) { pointer = p });
}

abbrev pub read_word : ℕ → Prog Memory ℕ
read_word r = read (λ m. (m.records r).next_record)

abbrev pub read_pointer : ℕ → Prog Memory ℕ
read_pointer r = read (λ m. (m.records r).pointer)

abbrev pub read_self : ℕ → Prog Memory ℕ
read_self r = read (λ m. (m.records r).self)

abbrev pub write_word : ℕ → ℕ → Prog Memory ℕ
write_word r w = act (λ m. (w, with_word m r w)) ret

abbrev pub write_pointer : ℕ → ℕ → Prog Memory ℕ
write_pointer r p = act (λ m. (p, with_pointer m r p)) ret

-- `__sync_val_compare_and_swap(&r->nextRecord, old, new)`: the word before
abbrev pub swap_word : ℕ → ℕ → ℕ → Prog Memory ℕ
swap_word r old new =
    act (λ m. let w = (m.records r).next_record in (w, if w == old then with_word m r new else m))
      ret

-- `__sync_sub_and_fetch(&r->nextRecord, REFONE)`: the word after
abbrev pub drop_ref : Layout → ℕ → Prog Memory ℕ
drop_ref l r =
    act (λ m. let w = minus_record l (m.records r).next_record in (w, with_word m r w)) ret

-- `a > b` on pointers cast to `long`
unfoldable pub key_above : ℕ → ℕ → Bool
key_above a b = ltb ((b + 2 ^ 63) % 2 ^ 64) ((a + 2 ^ 63) % 2 ^ 64)

-- The arguments of `psly_handle_records`, with the two ends of the list.
pub record Task : Type 0 where
  pub head : ℕ
  pub tail : ℕ
  pub key : ℕ
  pub flag : Flag

-- The local variables that live across its jumps: `my` with `localN`, once it is taken.
pub record Local : Type 0 where
  pub prev : ℕ
  pub prev_next : ℕ
  pub curr : ℕ
  pub removed : Bool
  pub my : Option (ℕ × ℕ)

-- The records from `local` up to `curr`, unlinked, go back to the pool.
unfoldable pub give_back : Layout → ℕ → ℕ → ℕ → ℕ → Prog Memory (Unit {0})
give_back l fuel zero local curr = out_of_fuel
give_back l fuel (suc n) local curr = do
  self ← read_self curr
  let more = (do
    write_pointer (address l local) 0
    w ← read_word (address l local)
    return_record l fuel (address l local)
    give_back l fuel n w curr)
  if address l local == address l self then ret tt else more

-- `get_Record` for a new entry: its number, its `nextRecord` (`localN`), and the key stored in it.
unfoldable pub take_my : Layout → ℕ → ℕ → Option (ℕ × ℕ) → Prog Memory (ℕ × ℕ)
take_my l fuel key (some my) = ret my
take_my l fuel key none = do
  taken ← get_record l fuel
  elim taken [
    | none ↦ crash
    | some r ↦ (do local_n ← read_word r; write_pointer r key; ret (r, local_n))
  ]

-- A record taken for nothing goes back as it came.
unfoldable pub drop_my : Layout → ℕ → Option (ℕ × ℕ) → Prog Memory (Unit {0})
drop_my l fuel none = ret tt
drop_my l fuel (some (r, local_n)) = do write_word r local_n; return_record l fuel r

-- The parts of `psly_handle_records`, where `again` is the head of its main loop and `fuel` is what
-- the loops of the pool get.
module _ (l : Layout) (t : Task) (fuel : ℕ) (again : Local → Prog Memory ℕ) where
  -- `Restart:`
  unfoldable pub restart : Local → Prog Memory ℕ
  restart s = do
    w ← read_word t.head
    again (record s { prev = t.head; prev_next = w; curr = address l w })

  -- `JUSTNEXTCHANGE:`
  unfoldable pub just_next_change : Local → ℕ → Prog Memory ℕ
  just_next_change s new = again (record s { prev_next = new; curr = address l new })

  -- `New = prev->nextRecord`, then `goto Restart` or `goto JUSTNEXTCHANGE`
  unfoldable pub look_back : Local → Prog Memory ℕ
  look_back s = do
    new ← read_word s.prev
    if moved_on l s.prev_next new then restart s else just_next_change s new

  -- `CasAppend:` with `append` linked behind `prev`
  unfoldable pub cas_append : ℕ → Local → ℕ → Prog Memory ℕ
  cas_append zero s append = out_of_fuel
  cas_append (suc n) s append = do
    self ← read_self append
    before ← swap_word s.prev s.prev_next (next_address_version l s.prev_next self)
    let retry = cas_append n (record s { prev_next = before }) append
    if before == s.prev_next
        then (do
          give_back l fuel (suc n) s.prev_next s.curr
          ret (elim t.flag [ record_flag ↦ 1 | _ ↦ 0 ]))
        else if moved_on l s.prev_next before
        then restart s
        else if link_changed l s.prev_next before
        then just_next_change s before
        else retry

  -- The loop that counts `curr` up, for the word `found_next` that was read of it
  unfoldable pub increment : ℕ → Local → ℕ → Prog Memory ℕ
  increment zero s found_next = out_of_fuel
  increment (suc n) s found_next = do
    before ← swap_word s.curr found_next (plus_record l found_next)
    let retry = increment n s before
    if before == found_next
        then (do drop_my l fuel s.my; ret (ref_count l (plus_record l found_next)))
        else if node_version l found_next == node_version l before
        then if ref_count l before == 0 then again (record s { curr = address l before }) else retry
        else look_back s

  -- The place for the key is found: `curr` is the tail or has a higher key.
  unfoldable pub at_place : ℕ → Local → Prog Memory ℕ
  at_place n s = elim t.flag [
    | search_flag ↦ ret 0
    | remove_flag ↦ (do
      self ← read_self s.curr
      if address l s.prev_next == address l self then ret 0 else cas_append n s s.curr)
    | record_flag ↦ (do
      my ← take_my l fuel t.key s.my
      self ← read_self s.curr
      write_word my.0 (new_next l my.1 self)
      cas_append n (record s { my = some my }) my.0)
  ]

  -- `curr` has the key, and `w` was read of it as a live word.
  unfoldable pub at_key : ℕ → Local → ℕ → Prog Memory ℕ
  at_key n s w = if s.removed then ret 0 else elim t.flag [
    | remove_flag ↦ (do
      left ← drop_ref l s.curr
      if ref_count l left == 0
          then again (record s { removed = true; curr = address l left })
          else ret (ref_count l left))
    | _ ↦ increment n s w
  ]

  -- `curr` has the key or a lower one; `curr_next` and `curr_key` were read of it.
  unfoldable pub at_entry : ℕ → Local → ℕ → ℕ → Prog Memory ℕ
  at_entry n s curr_next curr_key =
      let step = (do
        w ← read_word s.curr
        if node_version l curr_next == node_version l w
            then if ref_count l w == 0
              then again (record s { curr = address l w })
              else if curr_key == t.key
              then at_key n s w
              else again (record s { prev = s.curr; prev_next = w; curr = address l w })
            else look_back s) in
      elim t.flag [
        | search_flag ↦ if curr_key == t.key then ret (ref_count l curr_next) else step
        | _ ↦ step
      ]

-- `KeepPrev:`, the main loop of `psly_handle_records`
unfoldable pub keep_prev : Layout → Task → ℕ → ℕ → Local → Prog Memory ℕ
keep_prev l t fuel zero s = out_of_fuel
keep_prev l t fuel (suc n) s =
    let again = keep_prev l t fuel n in
    do
      curr_next ← read_word s.curr
      curr_key ← read_pointer s.curr
      new ← read_word s.prev
      let s' = record s { prev_next = new }
      if moved_on l s.prev_next new
          then restart l t fuel again s
          else if link_changed l s.prev_next new
          then just_next_change l t fuel again s new
          else if (s.curr == t.tail) || key_above curr_key t.key
          then at_place l t fuel again n s'
          else at_entry l t fuel again n s' curr_next curr_key

unfoldable pub handle_records : Layout → Task → ℕ → ℕ → Prog Memory ℕ
handle_records l t fuel n =
    restart l t fuel (keep_prev l t fuel n)
      (record { prev = t.head; prev_next = 0; curr = t.head; removed = false; my = none })

-- `psly_record`, `psly_remove` and `psly_search`, on the list that `key & (listNum - 1)` names
unfoldable pub handle : Layout → Flag → ℕ → ℕ → ℕ → Prog Memory ℕ
handle l flag fuel n pointer = do
  head ← read (λ m. (m.lists (pointer % l.list_num)).head)
  tail ← read (λ m. (m.lists (pointer % l.list_num)).tail)
  handle_records l (record { head = head; tail = tail; key = pointer; flag = flag }) fuel n

unfoldable pub psly_record : Layout → ℕ → ℕ → ℕ → Prog Memory ℕ
psly_record l = handle l record_flag

unfoldable pub psly_remove : Layout → ℕ → ℕ → ℕ → Prog Memory ℕ
psly_remove l = handle l remove_flag

unfoldable pub psly_search : Layout → ℕ → ℕ → ℕ → Prog Memory ℕ
psly_search l = handle l search_flag
