-- ===== src/Pool/Growing/Stock.antt =====
-- What the searches of cfilesforhazardpointer/hazard_long2.c find, run alone.
use native.Mathlib.Nat.{mod-lt}
use psly_algorithm.Base.{
  ℕ, zero, suc, ◌+◌, ◌-◌, ◌%◌, ◌^◌, ◌<◌, ◌≤◌, ◌≡◌, refl, ◌∙◌, ap, List, [], ◌∷◌, true, Option, none,
  some, arith, ◌==◌, ltb, Bool-cases, inl, inr, eq-of-==, update,
}
use psly_algorithm.Prog.{Prog, run, Outcome, done, and_then, run->>=}
use psly_algorithm.Pool.{
  Layout, Record, Memory, array_num, index_of, move_end, slot, with_tail, or_else, take_from,
  take_each,
}
use psly_algorithm.Pool.Holds.{Holds, Holds-frame}
use psly_algorithm.Pool.Get.{Single, Single-cons}
use psly_algorithm.Pool.Take.{Taken, take_from-some, take_from-none}
use psly_algorithm.Pool.Init.Fresh.{initial_queue}
use psly_algorithm.Pool.Growing.{take_once, take_signed, take_turns, search}

module _ (l : Layout) where
  -- Run alone no swap fails, so that the two inner loops do the same.
  pub take_once-run :
      (fuel a : ℕ) (m : Memory) → run (take_once l fuel a) m ≡ run (take_from l fuel a) m
  unfolding take_once take_from
  take_once-run zero a m = refl
  take_once-run (suc fuel) a m =
      let hd = (m.queues a).head in
      let tl = (m.queues a).tail in
      let nx = (m.records (slot l a (index_of l hd))).next in
      ground (arith, take_once-run fuel a (with_tail m a (move_end l tl nx)))

-- The queues of the first `n` arrays hold `free`; those behind them are as they were set up.
pub record Stock (l : Layout) (n : ℕ) (m : Memory) (free : ℕ → List ℕ) : Type 0 where
  pub holds : (a : ℕ) → a < n → Holds l m a (free a)
  pub unused : (a : ℕ) → n ≤ a → a < array_num l → m.queues a ≡ initial_queue l

-- A search ends, either with the oldest record of a queue that had two, or with none, where `P`
-- says of which queues it knows that they had one.
pub data Found (l : Layout) (n : ℕ) (free : ℕ → List ℕ) (P : Memory → Type 0)
    : Outcome Memory (Option ℕ) → Type 0 where
  found :
      {m : Memory} (c x y : ℕ) (r : List ℕ)
      → c < n
      → free c ≡ x ∷ y ∷ r
      → Stock l n m (update free c (y ∷ r))
      → Found l n free P (done (some (slot l c x)) m)
  none_found : {m : Memory} → Stock l n m free → P m → Found l n free P (done none m)

module _ (l : Layout) (n : ℕ) (free : ℕ → List ℕ) where
  Found-or_else :
      {P Q : Memory → Type 0} {o : Outcome Memory (Option ℕ)} (rest : Prog Memory (Option ℕ))
      → Found l n free P o
      → ((m : Memory) → Stock l n m free → P m → Found l n free Q (run rest m))
      → Found l n free Q (and_then o (λ r m. run (or_else r rest) m))
  Found-or_else rest (found c x y r k e s) next = found c x y r k e s
  Found-or_else rest (none_found s q) next = next _ s q

  pub Taken-Stock :
      (a : ℕ) (m m' : Memory) (xs : List ℕ)
      → a < n
      → Stock l n m free
      → Taken l m a xs m'
      → Stock l n m' (update free a xs)
  Taken-Stock a m m' xs lt s k = record {
    holds = λ c h. elim (Bool-cases (c == a)) [
      | inl here ↦ rw here (rw (eq-of-== c a here) k.holds)
      | inr other ↦ rw other (
          Holds-frame c (s.holds c h)
            (λ i _ j. ap (λ (rs : ℕ → Record). (rs (slot l c i)).next) k.same_records)
            (k.same_queues c other))
    ];
    unused = λ c le h. k.same_queues c (ground arith) ∙ s.unused c le h;
  }

  -- The queue has one record, and `recordTake` stands where it stood.
  abbrev Waits : ℕ → Memory → Memory → Type 0
  Waits a m m' = Single (free a) × (m'.record_take ≡ m.record_take)

  take_from-Found :
      (f a : ℕ) (m : Memory)
      → Stock l n m free
      → a < n
      → Found l n free (Waits a m) (run (take_from l (suc (suc f)) a) m)
  take_from-Found f a m s lt = go (free a) (s.holds a lt) refl
    where
      go :
          (xs : List ℕ)
          → Holds l m a xs
          → free a ≡ xs
          → Found l n free (Waits a m) (run (take_from l (suc (suc f)) a) m)
      go [] q e = absurd q.chain
      go (x ∷ []) q e = rw (take_from-none l m a (suc f) x q) (none_found s ((x, e), refl))
      go (x ∷ y ∷ r) q e =
          let (m', ran, k) = take_from-some l m a f x y r q in
          rw ran (found a x y r lt e (Taken-Stock a m m' (y ∷ r) lt s k))

  take_once-Found :
      (f a : ℕ) (m : Memory)
      → Stock l n m free
      → a < n
      → Found l n free (Waits a m) (run (take_once l (suc (suc f)) a) m)
  take_once-Found f a m s lt = rw (take_once-run l (suc (suc f)) a m) (take_from-Found f a m s lt)

  advanced : (m : Memory) {t : ℕ} → Stock l n m free → Stock l n (record m { record_take = t }) free
  advanced m s = record {
    holds = λ a h. Holds-frame a (s.holds a h) (λ i _ j. refl) refl;
    unused = s.unused;
  }

  take_signed-run :
      (fuel t : ℕ) → ltb t (2 ^ 63) ≡ true → take_signed l fuel n t ≡ take_once l fuel (t % n)
  unfolding take_signed
  take_signed-run fuel t h = rw h refl

  -- While `recordTake` does not reach 2^63 the remainder is one.
  take_turns-Found :
      (f k : ℕ) (m : Memory)
      → 0 < n
      → m.record_take + k < 2 ^ 63
      → Stock l n m free
      → Found l n free (λ _. Unit {0}) (run (take_turns l (suc (suc f)) n k) m)
  unfolding take_turns
  take_turns-Found f zero m pos few s = none_found s tt
  take_turns-Found f (suc k) m pos few s =
      let t = m.record_take in
      let m1 : Memory = record m { record_take = (t + 1) % 2 ^ 64 } in
      let o : Found l n free (Waits (t % n) m1) (run (take_signed l (suc (suc f)) n t) m1) =
        rw (take_signed-run (suc (suc f)) t (ground (arith, few)))
          (take_once-Found f (t % n) m1 (advanced m s) (mod-lt t pos)) in
      rw (run->>= (take_signed l (suc (suc f)) n t) _ m1) (
        Found-or_else (take_turns l (suc (suc f)) n k) o
          (λ m' s' q. take_turns-Found f k m' pos (omega (arith, q.1, few)) s'))

  Found-mono :
      {P Q : Memory → Type 0} {o : Outcome Memory (Option ℕ)}
      → ((m : Memory) → P m → Q m)
      → Found l n free P o
      → Found l n free Q o
  Found-mono weaken (found c x y r k e s) = found c x y r k e s
  Found-mono weaken (none_found s q) = none_found s (weaken _ q)

  take_each-Found :
      (f k i : ℕ) (m : Memory)
      → Stock l n m free
      → i + k ≤ n
      → Found l n free
          (λ _. (c : ℕ) → i ≤ c → c < i + k → Single (free c))
          (run (take_each l (suc (suc f)) k i) m)
  unfolding take_each
  take_each-Found f zero i m s h = none_found s (λ c a b. absurd (omega arith))
  take_each-Found f (suc k) i m s h = rw (run->>= (take_from l (suc (suc f)) i) _ m) (
      Found-or_else (take_each l (suc (suc f)) k (i + 1)) (take_from-Found f i m s (omega arith))
        λ m' s' q.
          Found-mono (λ _. Single-cons l free i k q.0)
            (take_each-Found f k (i + 1) m' s' (omega arith)))

  -- Run alone, a search that begins below 2^63 finds a record, or every queue has one record.
  pub search-Found :
      (f : ℕ) (m : Memory)
      → 0 < n
      → m.record_take + n < 2 ^ 63
      → Stock l n m free
      → Found l n free (λ _. (c : ℕ) → c < n → Single (free c)) (run (search l (suc (suc f)) n) m)
  unfolding search
  search-Found f m pos few s =
      let each = take_each l (suc (suc f)) n 0 in
      rw (run->>= (take_once l (suc (suc f)) (n - 1)) _ m) (
        Found-or_else _ (take_once-Found f (n - 1) m s (omega (arith, pos))) (λ m1 s1 q.
          rw (run->>= (take_turns l (suc (suc f)) n n) _ m1) (
            Found-or_else each (take_turns-Found f n m1 pos (omega (arith, q.1, few)) s1)
              (λ m2 s2 _.
                Found-mono (λ _ all c h. all c (omega arith) (omega (arith, h)))
                  (take_each-Found f n 0 m2 s2 (omega arith))))))
