-- ===== src/Hazard/Freed.antt =====
-- `scan` and `isIn` of hazardpointer.c run alone.
use psly_algorithm.Base.{
  ℕ, zero, suc, ◌+◌, ◌%◌, ◌^◌, ◌<◌, ◌≡◌, ◌≢◌, refl, ap, ◌∙◌, true, false, ◌&&◌, ◌||◌, not, inl, inr,
  Bool, Bool-cases, arith, ◌==◌, ==_refl,
}
use psly_algorithm.Prog.{Prog, run, done, run-else, run-then}
use psly_algorithm.Hazard.{Heap, scan, is_in, in_slots}
use psly_algorithm.Hazard.Scan.{Guard, guards_node, dropped_count, Scanned, scan_from-Ends}

-- What `scan` returns and leaves: the entries up to `rcount` are scanned, and `count` goes down by
-- the number of nodes that are freed.
pub record Freed {X : Type 0} (guard : Guard X) (me : ℕ) (held : ℕ → Prog (Heap X) Bool) (fuel : ℕ)
    (m : Heap X) : Type 0 where
  pub after : Heap X
  pub returns : run (scan held me fuel) m ≡ done 0 after
  pub scanned : Scanned guard me 0 (m.recs me).rcount m after
  pub count :
      ((after.recs me).count + dropped_count guard me m (suc (m.recs me).rcount) 0) % 2 ^ 32
      ≡ (m.recs me).count % 2 ^ 32

module _ {X : Type 0} (guard : Guard X) (me : ℕ) (held : ℕ → Prog (Heap X) Bool) (Ok : X → Type 0)
    (answers : (m : Heap X) (x : ℕ)
      → Ok m.guards
      → run (held x) m ≡ done (guards_node guard m x) m) where
  pub scan-Freed :
      (fuel : ℕ) (m : Heap X)
      → Ok m.guards
      → suc (m.recs me).rcount < fuel
      → Freed guard me held fuel m
  unfolding scan
  scan-Freed fuel m ok h =
      let m1 = record m { scans = (m.scans + 1) % 2 ^ 32 } in
      let e =
        scan_from-Ends guard me held Ok answers fuel (suc (m.recs me).rcount) 0 m1 ok h
          (omega arith) in
      record {
        after = e.after;
        returns = e.returns;
        scanned = record {
          outside = e.scanned.outside;
          inside = e.scanned.inside;
          frees = e.scanned.frees;
          only = e.scanned.only;
          spares = e.scanned.spares;
          still_freed = e.scanned.still_freed;
          slots = e.scanned.slots;
          slot_count = e.scanned.slot_count;
          guards = e.scanned.guards;
          nodes = e.scanned.nodes;
          rcount = e.scanned.rcount;
          others = e.scanned.others;
        };
        count = e.count;
      }

-- One of the `n` hazard pointers from `i` is the node.
abbrev pub slot_holds : (ℕ → ℕ) → ℕ → ℕ → ℕ → Bool
slot_holds slots x zero i = false
slot_holds slots x (suc n) i =
    (not (slots i == 0) && (x == slots i)) || slot_holds slots x n (i + 1)

abbrev pub slot_guard : {X : Type 0} → Guard X
slot_guard slots n g x = slot_holds slots x n 0

-- A node that one of the hazard pointers holds is guarded.
pub slot_holds-of :
    (slots : ℕ → ℕ) (x n i j : ℕ)
    → j < n
    → slots (i + j) ≡ x
    → x ≢ 0
    → slot_holds slots x n i ≡ true
slot_holds-of slots x zero i j h e z = absurd (omega arith)
slot_holds-of slots x (suc n) i zero h e z =
    let e' : slots i ≡ x = ap slots (omega arith) ∙ e in ground (arith, e', ==_refl x, z)
slot_holds-of slots x (suc n) i (suc j) h e z =
    let r = slot_holds-of slots x n (i + 1) j (omega arith) (ap slots (omega arith) ∙ e) z in
    ground (arith, r)

module _ {X : Type 0} where
  in_slots-answers :
      (x n i : ℕ) (m : Heap X) → run (in_slots x n i) m ≡ done (slot_holds m.slots x n i) m
  unfolding in_slots
  in_slots-answers x zero i m = refl
  in_slots-answers x (suc n) i m = elim (Bool-cases (m.slots i == 0)) [
    | inl z ↦
        run-then (m.slots i == 0) _ _ m z
          (in_slots-answers x n (i + 1) m ∙ ap (λ (b : Bool). done b m) (rw z refl))
    | inr z ↦ run-else (m.slots i == 0) _ _ m z (elim (Bool-cases (x == m.slots i)) [
      | inl here ↦
          run-then (x == m.slots i) _ _ m here (ap (λ (b : Bool). done b m) (rw (z, here) refl))
      | inr other ↦
          run-else (x == m.slots i) _ _ m other
            (in_slots-answers x n (i + 1) m ∙ ap (λ (b : Bool). done b m) (rw (z, other) refl))
    ])
  ]

  is_in-answers :
      (m : Heap X) (x : ℕ) → Unit {0} → run (is_in x) m ≡ done (guards_node slot_guard m x) m
  unfolding is_in
  is_in-answers m x ok = in_slots-answers x m.slot_count 0 m

  -- Run alone with a round for each entry up to rcount and one more, the scan of hazardpointer.c
  -- ends: each of those entries that no hazard pointer below H is equal to is freed and cleared, the
  -- others stay, no other node is freed, count goes down by the number of
  -- nodes that are freed, modulo 2^32, and the hazard pointers, the nodes and the records of the other threads
  -- stay.
  pub scan-is_in-Freed :
      (me fuel : ℕ) (m : Heap X) → suc (m.recs me).rcount < fuel → Freed slot_guard me is_in fuel m
  scan-is_in-Freed me fuel m h =
      scan-Freed slot_guard me is_in (λ _. Unit) is_in-answers fuel m tt h
