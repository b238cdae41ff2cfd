-- ===== src/Pool/Get.antt =====
-- `get_Record` over the whole pool, run alone.
use psly_algorithm.Base.{
  ◌%◌, ℕ, zero, suc, ◌+◌, ◌<◌, ◌≤◌, ◌≡◌, refl, List, [], ◌∷◌, arith, Option, none, some, ◌==◌,
  Bool-cases, inl, inr, eq-of-==, ap, update,
}
use psly_algorithm.Prog.{Prog, run, Outcome, done, and_then, run->>=}
use psly_algorithm.Pool.{
  Record, Layout, Memory, array_num, slot, or_else, take_from, take_round, take_each, get_record,
}
use psly_algorithm.Pool.Holds.{Holds, IsPool, IsPool-update, Holds-frame}
use psly_algorithm.Pool.Words.{pow_two_pos}
use native.Mathlib.Nat.{mod-lt}
use psly_algorithm.Pool.Take.{Taken, take_from-some, take_from-none}

-- A queue with only the record that it keeps back.
abbrev pub Single : List ℕ → Type 0
Single xs = (x : ℕ) × (xs ≡ x ∷ [])

-- A search ends, either with the oldest record of a queue that had two, or with none, where `P`
-- says of which queues it knows that they had one.
pub data Got (l : Layout) (free : ℕ → List ℕ) (P : Type 0)
    : Outcome Memory (Option ℕ) → Type 0 where
  got :
      {m : Memory} (c x y : ℕ) (r : List ℕ) (v : ℕ)
      → c < array_num l
      → free c ≡ x ∷ y ∷ r
      → v ≡ slot l c x
      → IsPool l m (update free c (y ∷ r))
      → Got l free P (done (some v) m)
  none_left : {m : Memory} → IsPool l m free → P → Got l free P (done none m)

module _ (l : Layout) (free : ℕ → List ℕ) where
  -- After a search that found nothing, the rest of the search.
  Got-or_else :
      {P Q : Type 0} {o : Outcome Memory (Option ℕ)} (rest : Prog Memory (Option ℕ))
      → Got l free P o
      → ((m : Memory) → IsPool l m free → P → Got l free Q (run rest m))
      → Got l free Q (and_then o (λ r m. run (or_else r rest) m))
  Got-or_else rest (got c x y r v k e s p) next = got c x y r v k e s p
  Got-or_else rest (none_left p q) next = next _ p q

  Got-mono :
      {P Q : Type 0} {o : Outcome Memory (Option ℕ)} → (P → Q) → Got l free P o → Got l free Q o
  Got-mono weaken (got c x y r v k e s p) = got c x y r v k e s p
  Got-mono weaken (none_left p q) = none_left p (weaken q)

  -- Taking from one queue leaves the others alone.
  pub Taken-IsPool :
      (a : ℕ) (m m' : Memory) (xs : List ℕ)
      → IsPool l m free
      → Taken l m a xs m'
      → IsPool l m' (update free a xs)
  Taken-IsPool a m m' xs p k =
      IsPool-update a p k.holds
        (λ c i o j. ap (λ (rs : ℕ → Record). (rs (slot l c i)).next) k.same_records) k.same_queues
        (λ r. ap (λ (rs : ℕ → Record). (rs r).self) k.same_records)

  take_from-Got :
      (f a : ℕ) (m : Memory)
      → IsPool l m free
      → a < array_num l
      → Got l free (Single (free a)) (run (take_from l (suc (suc f)) a) m)
  take_from-Got f a m p h = go (free a) (p.holds a h) refl
    where
      go :
          (xs : List ℕ)
          → Holds l m a xs
          → free a ≡ xs
          → Got l free (Single (free a)) (run (take_from l (suc (suc f)) a) m)
      go [] q e = absurd q.chain
      go (x ∷ []) q e = rw (take_from-none l m a (suc f) x q) (none_left p (x, e))
      go (x ∷ y ∷ r) q e =
          let (m', ran, k) = take_from-some l m a f x y r q in
          rw ran (got a x y r _ h e refl (Taken-IsPool a m m' (y ∷ r) p k))

  pub Single-cons :
      (i n : ℕ)
      → Single (free i)
      → ((c : ℕ) → i + 1 ≤ c → c < i + 1 + n → Single (free c))
      → (c : ℕ) → i ≤ c
      → c < i + suc n
      → Single (free c)
  Single-cons i n s rest c a b = elim (Bool-cases (c == i)) [
    | inl same ↦ rw (eq-of-== c i same) s
    | inr other ↦ rest c (ground arith) (omega arith)
  ]

  -- The second loop of `get_Record` asks each of `n` queues from `i` on.
  take_each-Got :
      (f n i : ℕ) (m : Memory)
      → IsPool l m free
      → i + n ≤ array_num l
      → Got l free
          ((c : ℕ) → i ≤ c → c < i + n → Single (free c))
          (run (take_each l (suc (suc f)) n i) m)
  unfolding take_each
  take_each-Got f zero i m p h = none_left p (λ c a b. absurd (omega arith))
  take_each-Got f (suc n) i m p h = rw (run->>= (take_from l (suc (suc f)) i) _ m) (
      Got-or_else (take_each l (suc (suc f)) n (i + 1)) (take_from-Got f i m p (omega arith))
        λ m' p' s. Got-mono (Single-cons i n s) (take_each-Got f n (i + 1) m' p' (omega arith)))

  advanced : (m : Memory) {n : ℕ} → IsPool l m free → IsPool l (record m { record_take = n }) free
  advanced m p = record {
    holds = λ a h. Holds-frame a (p.holds a h) (λ i _ j. refl) refl;
    named = p.named;
  }

  -- The first loop asks `n` queues in the order that `recordTake` gives.
  take_round-Got :
      (f n : ℕ) (m : Memory)
      → IsPool l m free
      → Got l free (Unit {0}) (run (take_round l (suc (suc f)) n) m)
  unfolding take_round
  take_round-Got f zero m p = none_left p tt
  take_round-Got f (suc n) m p =
      rw (run->>= (take_from l (suc (suc f)) (m.record_take % array_num l)) _ _) (
        Got-or_else (take_round l (suc (suc f)) n)
          (take_from-Got f _ _ (advanced m p) (mod-lt m.record_take (pow_two_pos l.arr_num)))
          λ m' p' s. take_round-Got f n m' p')

  -- Run alone on a pool, `get_Record` always returns, two rounds of its inner loop being enough:
  -- with the oldest record of a queue that had two or more, which then no longer has it, the other
  -- queues as before; or with none, and then every queue has just the record that it keeps back.
  pub get_record-Got :
      (f : ℕ) (m : Memory)
      → IsPool l m free
      → Got l free
          ((c : ℕ) → c < array_num l → Single (free c))
          (run (get_record l (suc (suc f))) m)
  unfolding get_record
  get_record-Got f m p = rw (run->>= (take_round l (suc (suc f)) (array_num l)) _ m) (
      Got-or_else (take_each l (suc (suc f)) (array_num l) 0) (take_round-Got f (array_num l) m p)
        λ m' p' s.
          Got-mono (λ all c h. all c (omega arith) (omega arith))
            (take_each-Got f (array_num l) 0 m' p' (omega arith)))
