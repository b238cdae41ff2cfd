-- ===== src/NodeQueue/Examples.antt =====
-- The theorems on the queue of hazardpointer.c at small memories, with the dummy 1.
use psly_algorithm.Base.{ℕ, ◌+◌, ◌-◌, ◌≡◌, refl, true, false, List, [], ◌∷◌, arith, ◌==◌, eq-of-==}
use psly_algorithm.Prog.{run, done, System, step, start}
use psly_algorithm.Prog.Advance.{advance, Reach-advance}
use psly_algorithm.Hazard.{
  Heap, Settings, allocate_hp_rec, find_rec, found_or_new, take_slots, new_rec, clear_list,
  push_rec,
}
use psly_algorithm.NodeQueue.{enqueue, link_loop, with_next, with_value}
use psly_algorithm.NodeQueue.Shared.{IsQueue, Moves}
use psly_algorithm.NodeQueue.Holds.{Holds, values_of}
use psly_algorithm.NodeQueue.Put.{enqueue-Holds}
use psly_algorithm.NodeQueue.Take.{Dequeued, dequeue-Dequeued}
use psly_algorithm.NodeQueue.Threads.{Call, put, take, worker, client, threads, interleaved-IsQueue}

abbrev set : Settings
set = record { max_thres = 1; threshold = 1; flag_ret = false }

-- `Head = Tail = malloc(sizeof(NodeType))`
abbrev begun : Heap (Unit {0})
begun = record {
  nodes = λ _. record { value = 0; next = 0 };
  head = 1;
  tail = 1;
  slots = λ _. 0;
  slot_count = 0;
  recs = λ _. record { base = 0; next = 0; active = 0; rcount = 0; count = 0; list = λ _. 0 };
  first_rec = 9;
  scans = 0;
  freed = λ _. false;
  guards = tt;
}

begun-Holds : Holds begun []
begun-Holds = record { chain = refl; no_null = refl; before = []; after = []; split = refl }

enqueue-Holds_example :
    (m' : Heap (Unit {0})) × (run (enqueue 9 1 2 70) begun ≡ done 0 m')
    × Holds m' (2 ∷ [])
    × (values_of m' (2 ∷ []) ≡ 70 ∷ [])
enqueue-Holds_example = enqueue-Holds 9 1 2 70 begun [] begun-Holds refl (omega arith) (omega arith)

-- The value 70 is in the queue, and `Tail` is behind.
abbrev one : Heap (Unit {0})
one = with_next (with_value begun 2 70) 1 2

dequeue-Dequeued_example : Dequeued set 9 2 one (2 ∷ [])
dequeue-Dequeued_example =
    dequeue-Dequeued set refl 9 0 one (2 ∷ [])
      (record { chain = (refl, refl); no_null = refl; before = []; after = 2 ∷ []; split = refl })

-- Thread `i` enqueues node `i + 2` and dequeues.
abbrev calls : ℕ → List Call
calls i = put (i + 2) 70 ∷ take ∷ []

abbrev both : System (Heap (Unit {0})) ℕ
both = threads set 3 (λ i. i + 100) calls begun

-- Thread 0 has read that node 1 is the last; its next access links node 2.
interleaved-IsQueue_example :
    (before : List ℕ) × IsQueue (advance 0 10 both).mem before
    × (i : ℕ) × (after : List ℕ) × IsQueue (advance 0 11 both).mem after
    × Moves (λ n. n - 2) i (advance 0 10 both).mem before (advance 0 11 both).mem after
unfolding client worker allocate_hp_rec find_rec found_or_new take_slots new_rec clear_list push_rec
    enqueue link_loop
interleaved-IsQueue_example =
    interleaved-IsQueue set 3 (λ i. i + 100) calls (λ n. n - 2) begun (1 ∷ [])
      (record { chain = refl; no_null = refl; head_on = refl; tail_on = refl }) (λ i. (refl, tt))
      (λ i r h.
        let e : (r == i + 2) ≡ true = ground arith in
        record {
          mine = ground (arith, eq-of-== r (i + 2) e);
          out = ground (arith, eq-of-== r (i + 2) e);
          not_null = ground (arith, eq-of-== r (i + 2) e);
        })
      (Reach-advance 0 10 both both start) (step 0 refl)

-- That access links node 2 behind node 1.
linked : ((advance 0 11 both).mem.nodes 1).next ≡ 2
unfolding client worker allocate_hp_rec find_rec found_or_new take_slots new_rec clear_list push_rec
    enqueue link_loop
linked = refl
