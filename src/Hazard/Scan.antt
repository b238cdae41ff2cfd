-- ===== src/Hazard/Scan.antt =====
-- `scan` run alone: it frees the nodes of the thread that nothing guards, and no others.
use psly_algorithm.Base.{
  ℕ, zero, suc, ◌+◌, ◌-◌, ◌%◌, ◌^◌, ◌⊎◌, sym, ◌<◌, ◌≤◌, ◌≡◌, refl, ◌∙◌, true, false, ◌&&◌, ◌||◌,
  not, inl, inr, arith, ◌==◌, ltb, Bool, Bool-cases, eq-of-==, ==_refl, if◌then◌else◌, update,
}
use native.Mathlib.Numerals.{add-one}
use psly_algorithm.Prog.{Prog, run, done, run->>=, run-else}
use psly_algorithm.Hazard.{Heap, with_entry, with_count, scan_entry, scan_from}

module _ {X : Type 0} where
  abbrev pub entry : Heap X → ℕ → ℕ → ℕ
  entry m me j = (m.recs me).list j

-- What guards a node: a test on the hazard pointers, their number and the rest of the memory.
abbrev pub Guard : Type 0 → Type 0
Guard X = (ℕ → ℕ) → ℕ → X → ℕ → Bool

abbrev pub guards_node : {X : Type 0} → Guard X → Heap X → ℕ → Bool
guards_node guard m x = guard m.slots m.slot_count m.guards x

module _ {X : Type 0} (guard : Guard X) (me : ℕ) where
  -- The scan frees entry `j`.
  abbrev pub drops : Heap X → ℕ → Bool
  drops m j = not (entry m me j == 0) && not (guards_node guard m (entry m me j))

  -- How many of the `n` entries from `i` the scan frees.
  abbrev pub dropped_count : Heap X → ℕ → ℕ → ℕ
  dropped_count m zero i = 0
  dropped_count m (suc n) i = (if drops m i then 1 else 0) + dropped_count m n (i + 1)

  -- From `m` to `m'` the entries from `i` to `last` are scanned.
  pub record Scanned (i last : ℕ) (m m' : Heap X) : Type 0 where
    pub outside : (j : ℕ) → (ltb j i || ltb last j) ≡ true → entry m' me j ≡ entry m me j
    pub inside :
        (j : ℕ)
        → (ltb j i || ltb last j) ≡ false
        → entry m' me j ≡ (if drops m j then 0 else entry m me j)
    pub frees :
        (j : ℕ)
        → (ltb j i || ltb last j) ≡ false
        → drops m j ≡ true
        → m'.freed (entry m me j) ≡ true
    pub spares : (x : ℕ) → guards_node guard m x ≡ true → m'.freed x ≡ m.freed x
    pub only :
        (x : ℕ)
        → m'.freed x ≡ true
        → (m.freed x ≡ true)
          ⊎ ((j : ℕ) × ((ltb j i || ltb last j) ≡ false) × (drops m j ≡ true) × (entry m me j ≡ x))
    pub still_freed : (x : ℕ) → m.freed x ≡ true → m'.freed x ≡ true
    pub slots : m'.slots ≡ m.slots
    pub slot_count : m'.slot_count ≡ m.slot_count
    pub guards : m'.guards ≡ m.guards
    pub nodes : m'.nodes ≡ m.nodes
    pub rcount : (m'.recs me).rcount ≡ (m.recs me).rcount
    pub others : (r : ℕ) → (r == me) ≡ false → m'.recs r ≡ m.recs r

  -- Entry `i` is freed.
  abbrev Dropped : Heap X → ℕ → Heap X
  Dropped m i =
      let m1 = record m { freed = update m.freed (entry m me i) true } in
      let m2 = with_entry m1 me i 0 in
      with_count m2 me (((m2.recs me).count + (2 ^ 32 - 1)) % 2 ^ 32)

  module _ (held : ℕ → Prog (Heap X) Bool) where
    scan_entry-lem :
        (m : Heap X) (i : ℕ)
        → run (held (entry m me i)) m ≡ done (guards_node guard m (entry m me i)) m
        → run (scan_entry held me i (entry m me i)) m
          ≡ done 0 (if guards_node guard m (entry m me i) then m else Dropped m i)
    unfolding scan_entry
    scan_entry-lem m i e = elim (Bool-cases (guards_node guard m (entry m me i))) [
      | inl kept ↦ run->>= (held (entry m me i)) _ m ∙ rw (e, kept) refl
      | inr free ↦ run->>= (held (entry m me i)) _ m ∙ rw (e, free) refl
    ]

  guard-same :
      (i last : ℕ) (m m1 : Heap X) (x : ℕ)
      → Scanned i last m m1
      → guards_node guard m1 x ≡ guards_node guard m x
  guard-same i last m m1 x a = rw (a.slots, a.slot_count, a.guards) refl

  drops-same :
      (i : ℕ) (m m1 : Heap X) (j : ℕ)
      → Scanned i i m m1
      → (ltb j i || ltb i j) ≡ true
      → drops m1 j ≡ drops m j
  drops-same i m m1 j a o = rw (a.outside j o, guard-same i i m m1 (entry m me j) a) refl

  -- Entry `i`, then those behind it.
  module _ (i last : ℕ) (m m1 m' : Heap X) (le : i ≤ last) (a : Scanned i i m m1)
      (b : Scanned (suc i) last m1 m') where
    join_inside :
        (j : ℕ)
        → (ltb j i || ltb last j) ≡ false
        → entry m' me j ≡ (if drops m j then 0 else entry m me j)
    join_inside j o = elim (Bool-cases (j == i)) [
      | inl here ↦ rw (eq-of-== j i here) (b.outside i (ground arith) ∙ a.inside i (ground arith))
      | inr other ↦
          let far : (ltb j i || ltb i j) ≡ true = ground arith in
          b.inside j (ground arith) ∙ rw (drops-same i m m1 j a far, a.outside j far) refl
    ]

    join_frees :
        (j : ℕ)
        → (ltb j i || ltb last j) ≡ false
        → drops m j ≡ true
        → m'.freed (entry m me j) ≡ true
    join_frees j o d = elim (Bool-cases (j == i)) [
      | inl here ↦
          rw (eq-of-== j i here)
            (b.still_freed _ (a.frees i (ground arith) (rw (← eq-of-== j i here) d)))
      | inr other ↦
          let far : (ltb j i || ltb i j) ≡ true = ground arith in
          rw (← a.outside j far) (b.frees j (ground arith) (drops-same i m m1 j a far ∙ d))
    ]

    join : Scanned i last m m'
    join = record {
      outside = λ j o. b.outside j (ground arith) ∙ a.outside j (ground arith);
      inside = join_inside;
      frees = join_frees;
      only = λ x f. elim (b.only x f) [
        | inr (j, o, d, e) ↦
            let far : (ltb j i || ltb i j) ≡ true = ground arith in
            inr (j, ground arith, rw (← drops-same i m m1 j a far) d, rw (← a.outside j far) e)
        | inl f1 ↦ elim (a.only x f1) [
          | inl f0 ↦ inl f0
          | inr (j, o, d, e) ↦ inr (j, ground arith, d, e)
        ]
      ];
      spares = λ x g. b.spares x (guard-same i i m m1 x a ∙ g) ∙ a.spares x g;
      still_freed = λ x f. b.still_freed x (a.still_freed x f);
      slots = b.slots ∙ a.slots;
      slot_count = b.slot_count ∙ a.slot_count;
      guards = b.guards ∙ a.guards;
      nodes = b.nodes ∙ a.nodes;
      rcount = b.rcount ∙ a.rcount;
      others = λ r o. b.others r o ∙ a.others r o;
    }

  -- One entry: kept, or freed.
  Scanned-kept : (i : ℕ) (m : Heap X) → drops m i ≡ false → Scanned i i m m
  Scanned-kept i m d = record {
    outside = λ j o. refl;
    inside = λ j o. let e : j ≡ i = ground arith in rw (e, d) refl;
    frees = λ j o f. let e : j ≡ i = ground arith in absurd (ground (arith, d, rw e at f));
    only = λ x f. inl f;
    spares = λ x g. refl;
    still_freed = λ x f. f;
    slots = refl;
    slot_count = refl;
    guards = refl;
    nodes = refl;
    rcount = refl;
    others = λ r o. refl;
  }

  Scanned-dropped : (i : ℕ) (m : Heap X) → drops m i ≡ true → Scanned i i m (Dropped m i)
  Scanned-dropped i m d = record {
    outside = λ j o. ground (arith, ==_refl me);
    inside =
        λ j o. let e : j ≡ i = ground arith in rw (e, d) (ground (arith, ==_refl me, ==_refl i));
    frees = λ j o f. let e : j ≡ i = ground arith in rw e (ground (arith, ==_refl (entry m me i)));
    only = λ x f. elim (Bool-cases (x == entry m me i)) [
      | inl here ↦ inr (i, ground arith, d, sym (eq-of-== x (entry m me i) here))
      | inr other ↦ inl (rw other at f)
    ];
    spares = λ x g. elim (Bool-cases (x == entry m me i)) [
      | inl here ↦ absurd (ground (arith, d, rw (eq-of-== x (entry m me i) here) at g))
      | inr other ↦ rw other refl
    ];
    still_freed = λ x f. ground arith;
    slots = refl;
    slot_count = refl;
    guards = refl;
    nodes = refl;
    rcount = ground (arith, ==_refl me);
    others = λ r o. ground arith;
  }

  -- A test that answers what `guard` says, and changes nothing.
  module _ (held : ℕ → Prog (Heap X) Bool) (Ok : X → Type 0)
      (answers : (m : Heap X) (x : ℕ)
        → Ok m.guards
        → run (held x) m ≡ done (guards_node guard m x) m) where
    -- What the loop leaves, and how many nodes it frees.
    pub record Ends (fuel i n : ℕ) (m : Heap X) : Type 0 where
      pub after : Heap X
      pub returns : run (scan_from held me fuel i) m ≡ done 0 after
      pub scanned : Scanned i (m.recs me).rcount m after
      pub count :
          ((after.recs me).count + dropped_count m n i) % 2 ^ 32 ≡ (m.recs me).count % 2 ^ 32

    scan-end :
        (fuel i : ℕ) (m : Heap X)
        → ltb (m.recs me).rcount i ≡ true
        → run (scan_from held me (suc fuel) i) m ≡ done 0 m
    unfolding scan_from
    scan-end fuel i m e = ground arith

    scan-free :
        (fuel i : ℕ) (m : Heap X)
        → ltb (m.recs me).rcount i ≡ false
        → (entry m me i == 0) ≡ true
        → run (scan_from held me (suc fuel) i) m ≡ run (scan_from held me fuel (i + 1)) m
    unfolding scan_from
    scan-free fuel i m e z = ground arith

    scan-node :
        (fuel i : ℕ) (m : Heap X)
        → ltb (m.recs me).rcount i ≡ false
        → (entry m me i == 0) ≡ false
        → Ok m.guards
        → run (scan_from held me (suc fuel) i) m
          ≡ run
              (scan_from held me fuel (i + 1))
              (if guards_node guard m (entry m me i) then m else Dropped m i)
    unfolding scan_from
    scan-node fuel i m e z ok = run-else (ltb (m.recs me).rcount i) _ _ m e (
        run-else (entry m me i == 0) _ _ m z (
          run->>= (scan_entry held me i (entry m me i)) (λ _. scan_from held me fuel (i + 1)) m
          ∙ rw (scan_entry-lem held m i (answers m (entry m me i) ok)) refl))

    dropped_count-same :
        (i : ℕ) (m m1 : Heap X)
        → Scanned i i m m1
        → (n j : ℕ) → i < j
        → dropped_count m1 n j ≡ dropped_count m n j
    dropped_count-same i m m1 a zero j h = refl
    dropped_count-same i m m1 a (suc n) j h =
        rw
          (
            drops-same i m m1 j a (ground arith),
            dropped_count-same i m m1 a n (j + 1) (omega arith),
          )
          refl

    -- Entry `i`, with its effect on the memory `m1`, and the rest.
    Ends-join :
        (fuel i n : ℕ) (m m1 : Heap X)
        → i ≤ (m.recs me).rcount
        → Scanned i i m m1
        → run (scan_from held me (suc fuel) i) m ≡ run (scan_from held me fuel (i + 1)) m1
        → ((m1.recs me).count + (if drops m i then 1 else 0)) % 2 ^ 32 ≡ (m.recs me).count % 2 ^ 32
        → Ends fuel (i + 1) n m1
        → Ends (suc fuel) i (suc n) m
    Ends-join fuel i n m m1 le a e c r =
        let b : Scanned (suc i) (m.recs me).rcount m1 r.after =
          rw (← a.rcount) (rw (← add-one i) r.scanned) in
        record {
          after = r.after;
          returns = e ∙ r.returns;
          scanned = join i (m.recs me).rcount m m1 r.after le a b;
          count = omega (arith, r.count, c, dropped_count-same i m m1 a n (i + 1) (omega arith));
        }

    pub scan_from-Ends :
        (fuel n i : ℕ) (m : Heap X)
        → Ok m.guards
        → n < fuel
        → i + n ≡ suc (m.recs me).rcount
        → Ends fuel i n m
    scan_from-Ends zero n i m ok h e = absurd (omega arith)
    scan_from-Ends (suc fuel) zero i m ok h e =
        let past : ltb (m.recs me).rcount i ≡ true = ground (arith) in
        record {
          after = m;
          returns = scan-end fuel i m past;
          scanned = record {
            outside = λ j o. refl;
            inside = λ j o. absurd (ground (arith));
            frees = λ j o d. absurd (ground (arith));
            only = λ x f. inl f;
            spares = λ x g. refl;
            still_freed = λ x f. f;
            slots = refl;
            slot_count = refl;
            guards = refl;
            nodes = refl;
            rcount = refl;
            others = λ r o. refl;
          };
          count = omega arith;
        }
    scan_from-Ends (suc fuel) (suc n) i m ok h e =
        let more : ltb (m.recs me).rcount i ≡ false = ground arith in
        elim (Bool-cases (entry m me i == 0)) [
          | inl z ↦
              let d : drops m i ≡ false = rw z refl in
              Ends-join fuel i n m m (omega arith) (Scanned-kept i m d) (scan-free fuel i m more z)
                (rw d (omega arith))
                (scan_from-Ends fuel n (i + 1) m ok (omega arith) (omega arith))
          | inr z ↦ elim (Bool-cases (guards_node guard m (entry m me i))) [
            | inl g ↦
                let d : drops m i ≡ false = rw (z, g) refl in
                Ends-join fuel i n m m (omega arith) (Scanned-kept i m d)
                  (scan-node fuel i m more z ok ∙ rw g refl) (rw d (omega arith))
                  (scan_from-Ends fuel n (i + 1) m ok (omega arith) (omega arith))
            | inr g ↦
                let d : drops m i ≡ true = rw (z, g) refl in
                let a = Scanned-dropped i m d in
                Ends-join fuel i n m (Dropped m i) (omega arith) a
                  (scan-node fuel i m more z ok ∙ rw g refl) (rw d (ground (arith, ==_refl me)))
                  (scan_from-Ends fuel n (i + 1) (Dropped m i) (rw a.guards ok) (omega arith)
                    (omega (arith, a.rcount)))
          ]
        ]
