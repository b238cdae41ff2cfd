-- ===== src/Pool/Growing/Alone.antt =====
-- The parts of `get_Record` of cfilesforhazardpointer/hazard_long2.c, run alone.
use mathlib.Core.Path.{subst}
use psly_algorithm.Base.{
  ℕ, suc, ◌+◌, ◌-◌, ◌/◌, ◌%◌, ◌<◌, ◌≤◌, ◌≡◌, refl, ◌∙◌, ap, List, ◌∷◌, Bool, true, false, Option,
  none, some, arith, ◌==◌, Bool-cases, inl, inr, eq-of-==, ==_refl, if◌then◌else◌, update,
}
use psly_algorithm.Prog.{
  Prog, ret, act, out_of_fuel, crash, run, Outcome, done, stuck, crashed, run->>=,
}
use psly_algorithm.Pool.{Layout, Record, Memory, index_of, array_len, array_num, slot}
use psly_algorithm.Pool.Words.{slot-div, index_of-slot}
use psly_algorithm.Pool.Holds.{Holds, Holds-frame, link}
use psly_algorithm.Pool.Get.{Single}
use psly_algorithm.Pool.Take.{Taken, take_from-some}
use psly_algorithm.Pool.Init.Fresh.{initial, Holds-first, count_up}
use psly_algorithm.Pool.Growing.{
  Growing, in_pool, with_array, new_record, take_once, search, grow, get_record,
}
use psly_algorithm.Pool.Growing.Stock.{Stock, take_once-run}

abbrev pub within : {A : Type 0} → Growing → Outcome Memory A → Outcome Growing A
within m (done a q) = done a (record m { pool = q })
within m stuck = stuck
within m crashed = crashed

pub run-in_pool :
    {A : Type 0} (p : Prog Memory A) (m : Growing) → run (in_pool p) m ≡ within m (run p m.pool)
unfolding in_pool
run-in_pool (ret a) m = refl
run-in_pool (act f k) m = run-in_pool (k (f m.pool).0) (record m { pool = (f m.pool).1 })
run-in_pool out_of_fuel m = refl
run-in_pool crash m = refl

module _ (l : Layout) where
  -- The counted arrays hold `free`, and no other array is there.
  pub record Keeps (m : Growing) (free : ℕ → List ℕ) : Type 0 where
    pub stock : Stock l m.arrays m.pool free
    pub missing : (a : ℕ) → m.arrays ≤ a → m.present a ≡ false

  -- What `get_Record` gives, and what it leaves.
  pub data Given (n : ℕ) (free : ℕ → List ℕ) : Outcome Growing (Option ℕ) → Type 0 where
    given :
        {m' : Growing} (c x y : ℕ) (r : List ℕ)
        → c < n
        → free c ≡ x ∷ y ∷ r
        → m'.arrays ≡ n
        → Keeps m' (update free c (y ∷ r))
        → Given n free (done (some (slot l c x)) m')
    added :
        {m' : Growing}
        → ((c : ℕ) → c < n → Single (free c))
        → n < array_num l
        → m'.arrays ≡ n + 1
        → Keeps m' (update free n (count_up 1 (array_len l - 1)))
        → Given n free (done (some (slot l n 0)) m')
    full :
        {m' : Growing}
        → ((c : ℕ) → c < n → Single (free c))
        → n ≡ array_num l
        → m'.arrays ≡ n
        → Keeps m' free
        → Given n free (done none m')

  abbrev pub extended : Growing → Growing
  extended m = record m {
    pool = with_array l m.pool m.arrays;
    present = update m.present m.arrays true;
    arrays = m.arrays + 1;
  }

  pub grow-run :
      (m : Growing) → m.present m.arrays ≡ false → run (grow l m.arrays) m ≡ done tt (extended m)
  unfolding grow
  grow-run m h = ground (arith, h, ==_refl m.arrays)

  slot-mod : (a k : ℕ) → k < array_len l → slot l a k % array_len l ≡ k
  unfolding index_of
  slot-mod a k lt = index_of-slot l a k lt

  with_array-if :
      (m : Memory) (a r : ℕ) (b : Bool)
      → (r / array_len l == a) ≡ b
      → (with_array l m a).records r ≡ (if b then new_record l a (r % array_len l) else m.records r)
  with_array-if m a r b e =
      ap {B = Record} (λ b. if b then new_record l a (r % array_len l) else m.records r) e

  pub with_array-own :
      (m : Memory) (a k : ℕ)
      → k < array_len l
      → link l (with_array l m a) a k ≡ (initial l a k).next
  with_array-own m a k lt =
      let new : (new_record l a k).next ≡ (initial l a k).next = ground (arith, lt) in
      ap (λ (x : Record). x.next)
        (with_array-if m a (slot l a k) true (ap (λ c. c == a) (slot-div l a k lt) ∙ ==_refl a))
      ∙ ap (λ i. (new_record l a i).next) (slot-mod a k lt)
      ∙ new

  pub with_array-other :
      (m : Memory) (a c k : ℕ)
      → (c == a) ≡ false
      → k < array_len l
      → link l (with_array l m a) c k ≡ link l m c k
  with_array-other m a c k o lt =
      ap (λ (x : Record). x.next)
        (with_array-if m a (slot l c k) false (ap (λ d. d == a) (slot-div l c k lt) ∙ o))

  pub extended-Stock :
      (m : Growing) (free : ℕ → List ℕ)
      → m.arrays < array_num l
      → Stock l m.arrays m.pool free
      → Stock l
          (m.arrays + 1)
          (with_array l m.pool m.arrays)
          (update free m.arrays (count_up 0 (array_len l)))
  extended-Stock m free lt s = record {
    holds = λ c h. elim (Bool-cases (c == m.arrays)) [
      | inl here ↦ rw here (
          rw (eq-of-== c m.arrays here) (
            Holds-first l m.arrays (with_array l m.pool m.arrays)
              (s.unused m.arrays (omega arith) lt) (λ k g. with_array-own m.pool m.arrays k g)))
      | inr other ↦ rw other (
          Holds-frame c (s.holds c (ground arith))
            (λ i _ j. with_array-other m.pool m.arrays c i other j) refl)
    ];
    unused = λ c le h. s.unused c (omega (arith, le)) h;
  }

  -- The new array is the newest, and holds all its records.
  pub newest-run :
      (f n x y : ℕ) (r : List ℕ) (m : Memory)
      → Holds l m n (x ∷ y ∷ r)
      → (m' : Memory) × (run (search l (suc (suc f)) (n + 1)) m ≡ done (some (slot l n x)) m')
        × Taken l m n (y ∷ r) m'
  unfolding search
  newest-run f n x y r m h =
      let (m', ran, k) = take_from-some l m n f x y r h in
      let at : n + 1 - 1 ≡ n = omega arith in
      let first : run (take_once l (suc (suc f)) (n + 1 - 1)) m ≡ done (some (slot l n x)) m' =
        rw at (take_once-run l (suc (suc f)) n m ∙ ran) in
      (m', run->>= (take_once l (suc (suc f)) (n + 1 - 1)) _ m ∙ rw first refl, k)

  pub found-run :
      (fuel rounds r : ℕ) (m : Growing) (q : Memory)
      → run (search l fuel m.arrays) m.pool ≡ done (some r) q
      → run (get_record l fuel (suc rounds)) m ≡ done (some r) (record m { pool = q })
  unfolding get_record
  found-run fuel rounds r m q e =
      run->>= (in_pool (search l fuel m.arrays)) _ m
      ∙ rw (run-in_pool (search l fuel m.arrays) m, e) refl

  pub Stock-same :
      (n : ℕ) (m : Memory) (free free' : ℕ → List ℕ)
      → ((a : ℕ) → free a ≡ free' a)
      → Stock l n m free
      → Stock l n m free'
  Stock-same n m free free' e s = record {
    holds = λ a h. subst (Holds l m a) (e a) (s.holds a h);
    unused = s.unused;
  }
