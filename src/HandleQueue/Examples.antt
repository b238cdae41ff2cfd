-- ===== src/HandleQueue/Examples.antt =====
-- The theorems on the queue of hazard_long.c at small memories.
use psly_algorithm.Base.{
  ℕ, ◌+◌, ◌-◌, ◌*◌, ◌<◌, ◌≡◌, refl, Bool-cases, inl, inr, true, false, none, List, [], ◌∷◌, arith,
  ◌==◌, eq-of-==, if◌then◌else◌,
}
use psly_algorithm.Prog.{ret, System, step, start}
use psly_algorithm.Prog.Advance.{advance, Reach-advance}
use psly_algorithm.Pool.{Layout, Memory}
use psly_algorithm.RecordList.Word.{word, address, ref_count}
use psly_algorithm.RecordList.Entries.{Entry}
use psly_algorithm.RecordList.Search.{IsList}
use psly_algorithm.Hazard.{
  Heap, Settings, allocate_hp_rec, find_rec, found_or_new, take_slots, new_rec, clear_list,
  push_rec,
}
use psly_algorithm.Hazard.Freed.{Freed}
use psly_algorithm.NodeQueue.Shared.{IsQueue, Moves}
use psly_algorithm.NodeQueue.Threads.{Call, put, take}
use psly_algorithm.HandleQueue.{Handles, guarded, has_handle, enqueue, link_loop}
use psly_algorithm.HandleQueue.Scan.{list_handles, handle_guard, Listed, scan-has_handle-Freed}
use psly_algorithm.HandleQueue.Threads.{worker, client, threads, handles-IsQueue}

-- The lists of hazard_long.c: list `a` runs from record `2 * a` to record `2 * a + 1`.
abbrev full : Layout
full = record { ref_num = 16; idx_num = 16; arr_num = 4; list_num = 131072 }

-- Thread 0 retired the nodes 5 and 6; list 0 has the key 6 once, in record 262144.
abbrev listed : Memory
listed = record {
  records = λ r. record {
    next = 0;
    self = r;
    next_record = word full 1 0 0 (if r == 0 then 262144 else if r == 262144 then 1 else r + 1);
    pointer = if r == 262144 then 6 else 0;
  };
  queues = λ _. record { head = 0; tail = 0 };
  record_take = 0;
  lists = λ a. record { head = 2 * a; tail = 2 * a + 1 };
}

abbrev entries : ℕ → List Entry
entries a = if a == 0 then record { at = 262144; key = 6; count = 1 } ∷ [] else []

abbrev heap : {X : Type 0} → X → Heap X
heap g = record {
  nodes = λ _. record { value = 0; next = 0 };
  head = 1;
  tail = 1;
  slots = λ _. 0;
  slot_count = 0;
  recs = λ _. record { base = 0; next = 0; active = 0; rcount = 1; count = 2; list = λ i. i + 5 };
  first_rec = 9;
  scans = 0;
  freed = λ _. false;
  guards = g;
}

first-IsList : IsList full listed 0 (entries 0)
unfolding address ref_count
first-IsList = record {
  live = refl;
  linked = (refl, refl, refl, refl, refl, refl);
  sorted = (omega arith, tt, tt);
}

other-IsList : (a : ℕ) → (a == 0) ≡ false → a < 131072 → IsList full listed a []
unfolding address ref_count
other-IsList a h lt = record {
  live = ground (arith, h, lt);
  linked = ground (arith, h, lt);
  sorted = tt;
}

listed-Listed : Listed full entries listed 2
listed-Listed a lt = elim (Bool-cases (a == 0)) [
  | inl here ↦ rw (eq-of-== a 0 here) (
    record { live = first-IsList.live; linked = first-IsList.linked; sorted = first-IsList.sorted },
    omega arith,
  )
  | inr later ↦ rw later (other-IsList a later lt, omega arith)
]

scan-has_handle-Freed_example :
    Freed
      (handle_guard full entries listed)
      0
      (has_handle (list_handles full (λ _. none) 2 2))
      3
      (heap listed)
scan-has_handle-Freed_example =
    scan-has_handle-Freed full entries listed (λ _. none) 2 2 0 3 (heap listed) listed-Listed refl
      (omega arith)

-- The node that is a key is not freed.
spared : scan-has_handle-Freed_example.after.freed 6 ≡ false
spared = scan-has_handle-Freed_example.scanned.spares 6 refl

abbrev no_handles : Handles (Unit {0})
no_handles = record { psly_record = λ x. ret 1; psly_remove = λ x. ret 0; psly_search = λ x. ret 0 }

abbrev set : Settings
set = record { max_thres = 1; threshold = 1; flag_ret = true }

abbrev calls : ℕ → List Call
calls i = put (i + 2) 70 ∷ take ∷ []

abbrev both : System (Heap (Unit {0})) ℕ
both = threads no_handles set 3 (λ i. i + 100) calls (heap tt)

-- Thread 0 has read that node 1 is the last; its next access links node 2.
handles-IsQueue_example :
    (before : List ℕ) × IsQueue (advance 0 10 both).mem before
    × (i : ℕ) × (after : List ℕ) × IsQueue (advance 0 11 both).mem after
    × Moves (λ n. n - 2) i (advance 0 10 both).mem before (advance 0 11 both).mem after
unfolding client worker allocate_hp_rec find_rec found_or_new take_slots new_rec clear_list push_rec
    enqueue link_loop guarded
handles-IsQueue_example =
    handles-IsQueue no_handles set 3 (λ i. i + 100) calls (λ n. n - 2) (heap tt) (1 ∷ [])
      (record { chain = refl; no_null = refl; head_on = refl; tail_on = refl }) (λ i. (refl, tt))
      (λ i r h.
        let e : (r == i + 2) ≡ true = ground arith in
        record {
          mine = ground (arith, eq-of-== r (i + 2) e);
          out = ground (arith, eq-of-== r (i + 2) e);
          not_null = ground (arith, eq-of-== r (i + 2) e);
        })
      (Reach-advance 0 10 both both start) (step 0 refl)

-- That access links node 2 behind node 1.
linked : ((advance 0 11 both).mem.nodes 1).next ≡ 2
unfolding client worker allocate_hp_rec find_rec found_or_new take_slots new_rec clear_list push_rec
    enqueue link_loop guarded
linked = refl
