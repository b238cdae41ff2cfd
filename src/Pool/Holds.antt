-- ===== src/Pool/Holds.antt =====
-- What a queue of free records holds, and which memory a change of one queue leaves alone.
use psly_algorithm.Base.{
  true, has, false, ◌==◌, update, Bool-cases, inl, inr, eq-of-==, ◌∙◌, ℕ, ◌<◌, ◌≡◌, List, ◌++◌,
  arith,
}
use psly_algorithm.Pool.{with_head, with_tail, Layout, Memory, array_len, array_num, index_of, slot}
use psly_algorithm.Pool.Chain.{Chain, Distinct, Chain-frame, Chain-lt, has_of-append}
use psly_algorithm.Pool.Words.{index_of-lt}

-- The link of index `i` of an array.
abbrev pub link : Layout → Memory → ℕ → ℕ → ℕ
link l m a i = (m.records (slot l a i)).next

-- The queue of array `a` holds the records `xs`, oldest first. The tail may lag behind the last.
pub record Holds (l : Layout) (m : Memory) (a : ℕ) (xs : List ℕ) : Type 0 where
  pub chain : Chain l (link l m a) (index_of l (m.queues a).head) xs
  pub before : List ℕ
  pub behind : List ℕ
  pub split : before ++ behind ≡ xs
  pub at_tail : Chain l (link l m a) (index_of l (m.queues a).tail) behind
  pub distinct : Distinct xs

-- Every queue of the pool, and the addresses of its records.
pub record IsPool (l : Layout) (m : Memory) (free : ℕ → List ℕ) : Type 0 where
  pub holds : (a : ℕ) → a < array_num l → Holds l m a (free a)
  pub named :
      (a i : ℕ) → a < array_num l → i < array_len l → (m.records (slot l a i)).self ≡ slot l a i

-- What a change of one end of a queue does to both ends.
module _ (m : Memory) (a w : ℕ) where
  pub head-with_head : ((with_head m a w).queues a).head ≡ w
  head-with_head = ground arith

  pub tail-with_head : ((with_head m a w).queues a).tail ≡ (m.queues a).tail
  tail-with_head = ground arith

  pub head-with_tail : ((with_tail m a w).queues a).head ≡ (m.queues a).head
  head-with_tail = ground arith

  pub tail-with_tail : ((with_tail m a w).queues a).tail ≡ w
  tail-with_tail = ground arith

-- A queue keeps what it holds where its links and its ends stay.
pub Holds-frame :
    {l : Layout} {m m' : Memory} (a : ℕ) {xs : List ℕ}
    → Holds l m a xs
    → ((i : ℕ) → has i xs ≡ true → i < array_len l → link l m' a i ≡ link l m a i)
    → m'.queues a ≡ m.queues a
    → Holds l m' a xs
Holds-frame {l} {m} {m'} a {xs} h same q = record {
  chain = rw q (keep (m.queues a).head xs (λ j k. k) h.chain);
  before = h.before;
  behind = h.behind;
  split = h.split;
  at_tail = rw q (
      keep (m.queues a).tail h.behind (λ j. has_of-append j h.before h.behind xs h.split)
        h.at_tail);
  distinct = h.distinct;
}
  where
    keep :
        (w : ℕ) (ys : List ℕ)
        → ((j : ℕ) → has j ys ≡ true → has j xs ≡ true)
        → Chain l (link l m a) (index_of l w) ys
        → Chain l (link l m' a) (index_of l w) ys
    keep w ys sub c =
        Chain-frame l _ _ _ ys (λ j k. same j (sub j k) (Chain-lt l _ _ j ys (index_of-lt l w) c k))
          c

-- A pool after a change of one queue that leaves the others alone.
pub IsPool-update :
    {l : Layout} {m m' : Memory} {free : ℕ → List ℕ} (a : ℕ) {xs : List ℕ}
    → IsPool l m free
    → Holds l m' a xs
    → ((c i : ℕ) → (c == a) ≡ false → i < array_len l → link l m' c i ≡ link l m c i)
    → ((c : ℕ) → (c == a) ≡ false → m'.queues c ≡ m.queues c)
    → ((r : ℕ) → (m'.records r).self ≡ (m.records r).self)
    → IsPool l m' (update free a xs)
IsPool-update {l} {m' = m'} a {xs} p h same ends selves = record {
  holds = λ c k. elim (Bool-cases (c == a)) [
    | inl here ↦ rw here (rw (eq-of-== c a here) h)
    | inr other ↦ rw other (Holds-frame c (p.holds c k) (λ i _. same c i other) (ends c other))
  ];
  named = λ c i k j. selves _ ∙ p.named c i k j;
}
