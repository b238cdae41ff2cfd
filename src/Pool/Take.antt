-- ===== src/Pool/Take.antt =====
-- `get_Record` alone: it gives the oldest free record of a queue, and keeps the last one back.
use psly_algorithm.Base.{
  ℕ, suc, ◌≡◌, refl, true, false, List, [], ◌∷◌, ◌++◌, arith, none, some, ◌==◌, ◌∙◌,
}
use psly_algorithm.Prog.{run, done}
use psly_algorithm.Pool.{
  Layout, Memory, index_of, is_last, slot, move_end, with_head, with_tail, take_from,
}
use psly_algorithm.Pool.Words.{index_of-move_end}
use psly_algorithm.Pool.Chain.{Chain, Distinct, has_of-append, Chain-head, ne_of-append}
use psly_algorithm.Pool.Holds.{
  Holds, link, head-with_head, tail-with_head, head-with_tail, tail-with_tail,
}

module _ (l : Layout) (m : Memory) (a : ℕ) where
  -- One round of the inner loop, by where head and tail stand.
  round_empty :
      (f x : ℕ)
      → index_of l (m.queues a).head ≡ x
      → index_of l (m.queues a).tail ≡ x
      → is_last l (link l m a x) ≡ true
      → run (take_from l (suc f) a) m ≡ done none m
  unfolding take_from
  round_empty f x h t e = ground arith

  abbrev helped : ℕ → Memory
  helped x = with_tail m a (move_end l (m.queues a).tail (link l m a x))

  abbrev taken : ℕ → Memory
  taken x = with_head m a (move_end l (m.queues a).head (link l m a x))

  round_help :
      (f x : ℕ)
      → index_of l (m.queues a).head ≡ x
      → index_of l (m.queues a).tail ≡ x
      → is_last l (link l m a x) ≡ false
      → run (take_from l (suc f) a) m ≡ run (take_from l f a) (helped x)
  unfolding take_from
  round_help f x h t e = ground arith

  round_take :
      (f x : ℕ)
      → index_of l (m.queues a).head ≡ x
      → (x == index_of l (m.queues a).tail) ≡ false
      → run (take_from l (suc f) a) m ≡ done (some (slot l a x)) (taken x)
  unfolding take_from
  round_take f x h t = ground arith

  -- The state after `round_take`, with a tail that is not at the record taken.
  taken-Holds :
      (x y : ℕ) (r bs behind : List ℕ)
      → Chain l (link l m a) (index_of l (m.queues a).head) (x ∷ y ∷ r)
      → Chain l (link l m a) (index_of l (m.queues a).tail) behind
      → bs ++ behind ≡ y ∷ r
      → Distinct (x ∷ y ∷ r)
      → Holds l (taken x) a (y ∷ r)
  taken-Holds x y r bs behind c t e d = record {
    chain = rw (head-with_head m a _, index_of-move_end) c.2;
    before = bs;
    behind = behind;
    split = e;
    at_tail = rw (tail-with_head m a _) t;
    distinct = d.1;
  }

  -- What taking a record from the queue changes.
  pub record Taken (xs : List ℕ) (m' : Memory) : Type 0 where
    pub holds : Holds l m' a xs
    pub same_records : m'.records ≡ m.records
    pub same_take : m'.record_take ≡ m.record_take
    pub same_queues : (c : ℕ) → (c == a) ≡ false → m'.queues c ≡ m.queues c

module _ (l : Layout) (m : Memory) (a : ℕ) where
  ahead-take :
      (f x y : ℕ) (r bs behind : List ℕ)
      → Chain l (link l m a) (index_of l (m.queues a).head) (x ∷ y ∷ r)
      → Chain l (link l m a) (index_of l (m.queues a).tail) behind
      → bs ++ behind ≡ y ∷ r
      → Distinct (x ∷ y ∷ r)
      → (m' : Memory) × (run (take_from l (suc f) a) m ≡ done (some (slot l a x)) m')
        × Taken l m a (y ∷ r) m'
  ahead-take f x y r bs behind c t e d = (
    taken l m a x,
    round_take l m a f x c.0 (ne_of-append x _ bs behind (y ∷ r) e (Chain-head l _ _ behind t) d.0),
    record {
      holds = taken-Holds l m a x y r bs behind c t e d;
      same_records = refl;
      same_take = refl;
      same_queues = ground arith;
    },
  )

module _ (l : Layout) (m : Memory) (a : ℕ) where
  -- The tail stands at the oldest record: the loop moves it on first.
  behind-take :
      (f x y : ℕ) (r : List ℕ)
      → Chain l (link l m a) (index_of l (m.queues a).head) (x ∷ y ∷ r)
      → Chain l (link l m a) (index_of l (m.queues a).tail) (x ∷ y ∷ r)
      → Distinct (x ∷ y ∷ r)
      → (m' : Memory) × (run (take_from l (suc (suc f)) a) m ≡ done (some (slot l a x)) m')
        × Taken l m a (y ∷ r) m'
  behind-take f x y r c t d =
      let (m', ran, k) =
        ahead-take l (helped l m a x) a f x y r [] (y ∷ r)
          (rw (head-with_tail m a (move_end l (m.queues a).tail (link l m a x))) c)
          (rw (tail-with_tail m a (move_end l (m.queues a).tail (link l m a x)), index_of-move_end)
            t.2)
          refl d in
      (
        m',
        round_help l m a (suc f) x c.0 t.0 c.1 ∙ ran,
        record {
          holds = k.holds;
          same_records = k.same_records;
          same_take = k.same_take;
          same_queues = λ c o. k.same_queues c o ∙ ground arith;
        },
      )

  -- A queue with two records or more gives the oldest.
  pub take_from-some :
      (f x y : ℕ) (r : List ℕ)
      → Holds l m a (x ∷ y ∷ r)
      → (m' : Memory) × (run (take_from l (suc (suc f)) a) m ≡ done (some (slot l a x)) m')
        × Taken l m a (y ∷ r) m'
  take_from-some f x y r h = go h.before h.behind h.split h.at_tail
    where
      go :
          (bs behind : List ℕ)
          → bs ++ behind ≡ x ∷ y ∷ r
          → Chain l (link l m a) (index_of l (m.queues a).tail) behind
          → (m' : Memory) × (run (take_from l (suc (suc f)) a) m ≡ done (some (slot l a x)) m')
            × Taken l m a (y ∷ r) m'
      go [] behind e t = behind-take f x y r h.chain (rw e at t) h.distinct
      go (b ∷ bs) behind e t = ahead-take l m a (suc f) x y r bs behind h.chain t (cc) h.distinct

  pub take_from-none :
      (f x : ℕ) → Holds l m a (x ∷ []) → run (take_from l (suc f) a) m ≡ done none m
  take_from-none f x h =
      let k =
        has_of-append _ h.before h.behind (x ∷ []) h.split (Chain-head l _ _ h.behind h.at_tail) in
      round_empty l m a f x h.chain.0 (ground arith) h.chain.1
