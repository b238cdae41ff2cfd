-- ===== src/HandleQueue/Scan.antt =====
-- `scan` over the counted keys of the list of hazard_long.c, run alone.
use psly_algorithm.Base.{ℕ, suc, arith, Option, ◌≡◌, ◌≤◌, ◌<◌, refl, ◌∙◌, not, List, length, ◌==◌}
use psly_algorithm.Prog.{
  Prog, ret, act, out_of_fuel, crash, run, run->>=, Outcome, done, stuck, crashed,
}
use psly_algorithm.Pool.{Layout, Memory}
use psly_algorithm.RecordList.{record_flag, search_flag, remove_flag}
use psly_algorithm.RecordList.Checkpoints.{Prevs, handle}
use psly_algorithm.RecordList.Checkpoints.Set.{list_of, search_trail-IsList}
use psly_algorithm.RecordList.Entries.{Entry, count_of}
use psly_algorithm.RecordList.Search.{IsList}
use psly_algorithm.Hazard.{Heap}
use psly_algorithm.Hazard.Scan.{Guard, guards_node}
use psly_algorithm.Hazard.Freed.{Freed, scan-Freed}
use psly_algorithm.HandleQueue.{Handles, guarded, has_handle}

-- The three operations of the list, with what the thread has in `prevs_`, and their fuel.
abbrev pub list_handles : Layout → (ℕ → Option Prevs) → ℕ → ℕ → Handles Memory
list_handles l prevs fuel n = record {
  psly_record = handle l record_flag prevs fuel n;
  psly_remove = handle l remove_flag prevs fuel n;
  psly_search = handle l search_flag prevs fuel n;
}

module _ {X : Type 0} where
  -- The end of a program of the list, in the whole memory.
  abbrev pub within : {A : Type 0} → Heap X → Outcome X A → Outcome (Heap X) A
  within m (done a g) = done a (record m { guards = g })
  within m stuck = stuck
  within m crashed = crashed

  -- A program of the list leaves the rest of the memory.
  pub run-guarded :
      {A : Type 0} (p : Prog X A) (m : Heap X) → run (guarded p) m ≡ within m (run p m.guards)
  unfolding guarded
  run-guarded (ret a) m = refl
  run-guarded (act f k) m = run-guarded (k (f m.guards).0) (record m { guards = (f m.guards).1 })
  run-guarded out_of_fuel m = refl
  run-guarded crash m = refl

module _ (l : Layout) (entries : ℕ → List Entry) (g : Memory) where
  -- The key of the node is in its list.
  abbrev pub handle_guard : Guard Memory
  handle_guard slots count g' x = not (count_of x (entries (list_of x)) == 0)

  -- The lists of `g` hold `entries`, and the rounds `n` are enough for each of them.
  abbrev pub Listed : ℕ → Type 0
  Listed n = (a : ℕ) → a < 131072 → IsList l g a (entries a) × (suc (length (entries a)) ≤ n)

  has_handle-answers :
      (prevs : ℕ → Option Prevs) (fuel n : ℕ)
      → Listed n
      → (m : Heap Memory) (x : ℕ) → m.guards ≡ g
      → run (has_handle (list_handles l prevs fuel n) x) m ≡ done (guards_node handle_guard m x) m
  unfolding has_handle
  has_handle-answers prevs fuel n listed m x e =
      let key = list_of x in
      let held = listed key (omega arith) in
      let found = search_trail-IsList l g prevs x fuel n (entries key) held.0 held.1 in
      run->>= (guarded (handle l search_flag prevs fuel n x)) (λ w. ret (not (w == 0))) m
      ∙ rw (run-guarded (handle l search_flag prevs fuel n x) m, e, found) (rw (← e) refl)

  -- Run alone on the 131072 lists, which hold `entries`, with enough rounds, the scan of hazard_long.c ends: it
  -- frees and clears the entries up to rcount whose node is not a key of the list, keeps the others,
  -- and frees no other node; count goes down by the number of nodes that are freed, modulo 2^32, and
  -- the lists, the nodes and the records of the other threads stay.
  pub scan-has_handle-Freed :
      (prevs : ℕ → Option Prevs) (fuel n me rounds : ℕ) (m : Heap Memory)
      → Listed n
      → m.guards ≡ g
      → suc (m.recs me).rcount < rounds
      → Freed handle_guard me (has_handle (list_handles l prevs fuel n)) rounds m
  scan-has_handle-Freed prevs fuel n me rounds m listed e h =
      scan-Freed handle_guard me (has_handle (list_handles l prevs fuel n)) (λ g'. g' ≡ g)
        (λ m' x ok. has_handle-answers prevs fuel n listed m' x ok) rounds m e h
