-- ===== src/Pool/Init/Fresh.antt =====
-- After `INIT_RESOURCE` every queue holds all the records of its array, in order.
use native.Mathlib.Nat.{add-zero, zero-add}
use psly_algorithm.Base.{
  ℕ, zero, suc, ◌+◌, ◌-◌, ◌<◌, ◌≤◌, ◌≡◌, refl, false, List, [], ◌∷◌, ◌++◌, arith, ◌∉◌, ◌==◌,
  Bool-cases, inl, inr, eq-of-==, sym, ◌∙◌, ap, if◌then◌else◌,
}
use psly_algorithm.Pool.{Layout, Record, RecordQueue, Memory, array_len, array_num, slot}
use psly_algorithm.Pool.Words.{
  is_last-array_len, is_last-small, index_of-small, slot-ne, array_len-pos,
}
use psly_algorithm.Pool.Chain.{Chain, Distinct}
use psly_algorithm.Pool.Holds.{Holds, link, IsPool}
use psly_algorithm.Pool.Init.{
  with_record, inner_record, last_record, init_slots, init_array, init_arrays, zeroed, init_pool,
}

-- The numbers `i`, `i + 1`, … of `n` records.
unfoldable pub count_up : ℕ → ℕ → List ℕ
count_up i zero = []
count_up i (suc n) = i ∷ count_up (i + 1) n

count_up-lt : (i n j : ℕ) → j < i → j ∉ count_up i n
unfolding count_up
count_up-lt i zero j h = refl
count_up-lt i (suc n) j h = ground (arith, count_up-lt (i + 1) n j)

count_up-Distinct : (i n : ℕ) → Distinct (count_up i n)
unfolding count_up
count_up-Distinct i zero = tt
count_up-Distinct i (suc n) = (count_up-lt (i + 1) n i (omega arith), count_up-Distinct (i + 1) n)

count_up-append : (i n : ℕ) → count_up i n ++ (i + n) ∷ [] ≡ count_up i (suc n)
unfolding count_up
count_up-append i zero = rw add-zero
count_up-append i (suc n) =
    let e : i + suc n ≡ i + 1 + n = omega arith in
    ap {B = List ℕ} (λ xs. i ∷ xs) (rw e (count_up-append (i + 1) n))

module _ (l : Layout) where
  -- What the loop over `j` leaves alone, and what it writes.
  init_slots-other :
      (i n j : ℕ) (r : ℕ) (m : Memory)
      → ((k : ℕ) → j ≤ k → k < j + n → (r == slot l i k) ≡ false)
      → (init_slots l i n j m).records r ≡ m.records r
  unfolding init_slots
  init_slots-other i zero j r m h = refl
  init_slots-other i (suc n) j r m h =
      init_slots-other i n (j + 1) r _ (λ k a b. h k (omega arith) (omega arith))
      ∙ rw (h j (omega arith) (omega arith))

  init_slots-inner :
      (i n j k : ℕ) (m : Memory)
      → j ≤ k
      → k < j + n
      → (init_slots l i n j m).records (slot l i k) ≡ inner_record l i k
  unfolding init_slots
  init_slots-inner i zero j k m h g = absurd (omega arith)
  init_slots-inner i (suc n) j k m h g = elim (Bool-cases (k == j)) [
    | inl first ↦
        let e = eq-of-== k j first in
        let kept =
          init_slots-other i n (j + 1) (slot l i k)
            (with_record m (slot l i j) (inner_record l i j)) (λ q a b. ground arith) in
        kept ∙ rw e (ground arith)
    | inr later ↦ init_slots-inner i n (j + 1) k _ (ground arith) (omega arith)
  ]

  init_slots-queues : (i n j : ℕ) (m : Memory) → (init_slots l i n j m).queues ≡ m.queues
  unfolding init_slots
  init_slots-queues i zero j m = refl
  init_slots-queues i (suc n) j m =
      init_slots-queues i n (j + 1) (with_record m (slot l i j) (inner_record l i j))

  abbrev pub initial : ℕ → ℕ → Record
  initial i k = if suc k == array_len l then last_record l i else inner_record l i k

  abbrev pub initial_queue : RecordQueue
  initial_queue = record { head = 0; tail = array_len l - 1 }

  init_array-own :
      (i k : ℕ) (m : Memory)
      → k < array_len l
      → (init_array l i m).records (slot l i k) ≡ initial i k
  unfolding init_array
  init_array-own i k m h = elim (Bool-cases (suc k == array_len l)) [
    | inl last ↦ ground (arith, eq-of-== (suc k) (array_len l) last)
    | inr inner ↦ ground (arith, init_slots-inner i (array_len l - 1) 0 k m)
  ]

  init_array-other :
      (i c k : ℕ) (m : Memory)
      → (c == i) ≡ false
      → k < array_len l
      → (init_array l i m).records (slot l c k) ≡ m.records (slot l c k)
  unfolding init_array
  init_array-other i c k m o h =
      let len : 0 < array_len l = array_len-pos l in
      let kept =
        init_slots-other i (array_len l - 1) 0 (slot l c k) m
          (λ q a b. slot-ne l c i k q o h (omega arith)) in
      rw (slot-ne l c i k (array_len l - 1) o h (omega arith)) kept

  init_array-queues :
      (i c : ℕ) (m : Memory)
      → (init_array l i m).queues c ≡ (if c == i then initial_queue else m.queues c)
  unfolding init_array
  init_array-queues i c m = rw (init_slots-queues i (array_len l - 1) 0 m)

  -- The loop over `i` sets up the arrays from `i` on.
  record Ready (i n : ℕ) (m : Memory) : Type 0 where
    records_of :
        (c k : ℕ) → i ≤ c → c < i + n → k < array_len l → m.records (slot l c k) ≡ initial c k
    queue_of : (c : ℕ) → i ≤ c → c < i + n → m.queues c ≡ initial_queue

  init_arrays-below :
      (n i c k : ℕ) (m : Memory)
      → c < i
      → k < array_len l
      → ((init_arrays l n i m).records (slot l c k) ≡ m.records (slot l c k))
        × ((init_arrays l n i m).queues c ≡ m.queues c)
  unfolding init_arrays
  init_arrays-below zero i c k m h g = (refl, refl)
  init_arrays-below (suc n) i c k m h g =
      let rest = init_arrays-below n (i + 1) c k (init_array l i m) (omega arith) g in
      let o : (c == i) ≡ false = ground arith in
      (rest.0 ∙ init_array-other i c k m o g, rest.1 ∙ init_array-queues i c m ∙ rw o)

  init_arrays-Ready : (n i : ℕ) (m : Memory) → Ready i n (init_arrays l n i m)
  unfolding init_arrays
  init_arrays-Ready zero i m = record {
    records_of = λ c k a b h. absurd (omega arith);
    queue_of = λ c a b. absurd (omega arith);
  }
  init_arrays-Ready (suc n) i m =
      let rest = init_arrays-Ready n (i + 1) (init_array l i m) in
      record {
        records_of = λ c k a b h. elim (Bool-cases (c == i)) [
          | inl here ↦
              (init_arrays-below n (i + 1) c k (init_array l i m) (ground arith) h).0
              ∙ rw (eq-of-== c i here) (init_array-own i k m h)
          | inr later ↦ rest.records_of c k (ground arith) (omega arith) h
        ];
        queue_of = λ c a b. elim (Bool-cases (c == i)) [
          | inl here ↦
              (init_arrays-below n (i + 1) c 0 (init_array l i m) (ground arith)
                (array_len-pos l)).1
              ∙ init_array-queues i c m
              ∙ rw here
          | inr later ↦ rest.queue_of c (ground arith) (omega arith)
        ];
      }

  initial-self : (a i : ℕ) → i < array_len l → (initial a i).self ≡ slot l a i
  initial-self a i h = ground arith

  initial-last : (a i : ℕ) → suc i ≡ array_len l → (initial a i).next ≡ array_len l
  initial-last a i e = ground arith

  initial-inner : (a i : ℕ) → suc i < array_len l → (initial a i).next ≡ i + 1
  initial-inner a i e = ground arith

  Chain-first :
      (a i n : ℕ) (m : Memory)
      → i + suc n ≡ array_len l
      → ((k : ℕ) → k < array_len l → link l m a k ≡ (initial a k).next)
      → Chain l (link l m a) i (count_up i (suc n))
  unfolding count_up
  Chain-first a i zero m e r =
      let next : link l m a i ≡ array_len l = r i (omega arith) ∙ initial-last a i (omega arith) in
      (refl, rw next (is_last-array_len l))
  Chain-first a i (suc n) m e r =
      let next : link l m a i ≡ i + 1 = r i (omega arith) ∙ initial-inner a i (omega arith) in
      (
        refl,
        rw next (is_last-small l (i + 1) (omega arith)),
        rw (next, index_of-small l (i + 1) (omega arith))
            (Chain-first a (i + 1) n m (omega arith) r),
      )

  -- A queue with its first ends holds all the records of its array.
  pub Holds-first :
      (a : ℕ) (m : Memory)
      → m.queues a ≡ initial_queue
      → ((k : ℕ) → k < array_len l → link l m a k ≡ (initial a k).next)
      → Holds l m a (count_up 0 (array_len l))
  unfolding count_up
  Holds-first a m ends slots = record {
    chain = rw ends (
        rw (index_of-small l 0 pos)
          (rw whole (Chain-first a 0 (array_len l - 1) m (omega (arith, pos)) slots)));
    before = count_up 0 (array_len l - 1);
    behind = (array_len l - 1) ∷ [];
    split = split;
    at_tail = rw ends (
        rw (index_of-small l (array_len l - 1) (omega (arith, pos)))
          (Chain-first a (array_len l - 1) 0 m (omega (arith, pos)) slots));
    distinct = count_up-Distinct 0 (array_len l);
  }
    where
      pos : 0 < array_len l
      pos = array_len-pos l

      whole : array_len l ≡ suc (array_len l - 1)
      whole = omega (arith, pos)

      split : count_up 0 (array_len l - 1) ++ (array_len l - 1) ∷ [] ≡ count_up 0 (array_len l)
      split = rw zero-add at (count_up-append 0 (array_len l - 1)) ∙ ap (count_up 0) (sym whole)

-- Right after `INIT_RESOURCE` has set up the arrays, every queue holds all its records in order.
pub init_pool-IsPool : (l : Layout) → IsPool l (init_pool l) (λ _. count_up 0 (array_len l))
unfolding init_pool
init_pool-IsPool l =
    let ready = init_arrays-Ready l (array_num l) 0 (zeroed l) in
    record {
      holds = λ a h.
          Holds-first l a _ (ready.queue_of a (omega arith) (omega arith)) (λ k g.
            ap (λ (x : Record). x.next) (ready.records_of a k (omega arith) (omega arith) g));
      named = λ a i h k.
          ap (λ (x : Record). x.self) (ready.records_of a i (omega arith) (omega arith) k)
          ∙ initial-self l a i k;
    }
