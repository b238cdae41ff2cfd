-- ===== src/Pool/Return.antt =====
-- `return_Record` alone: the record becomes the youngest of its own array's queue.
use mathlib.Core.List.{append_assoc}
use mathlib.Core.Path.{subst}
use psly_algorithm.Base.{
  ℕ, zero, suc, ◌/◌, ◌%◌, ◌<◌, ◌≤◌, ◌≡◌, refl, true, false, List, [], ◌∷◌, ◌++◌, arith, has, ◌∉◌,
  ◌==◌, Bool-cases, inl, inr, eq-of-==, ◌∙◌, ap, update, length, length-append,
}
use psly_algorithm.Prog.{run, done}
use psly_algorithm.Pool.{
  Layout, Memory, array_len, array_num, index_of, is_last, mark_last, move_end, link_to, slot,
  with_next, with_tail, append_loop, return_record,
}
use psly_algorithm.Pool.Words.{
  index_of-move_end, index_of-link_to, is_last-link_to, is_last-mark_last, index_of-slot,
  array_of-slot, slot-ne, index_of-lt,
}
use psly_algorithm.Pool.Chain.{
  Chain, Distinct, Distinct-append, ne_of-Distinct, has-append, Chain-append,
}
use psly_algorithm.Pool.Holds.{
  Holds, link, IsPool, IsPool-update, Holds-frame, head-with_tail, tail-with_tail,
}

module _ (l : Layout) (a : ℕ) (m : Memory) where
  -- The state after the link behind the last record `t` and the move of the tail.
  abbrev linked : ℕ → ℕ → Memory
  linked self t =
      with_tail (with_next m (slot l a t) (link_to l (link l m a t) self)) a
        (move_end l (m.queues a).tail self)

  abbrev helped : ℕ → Memory
  helped t = with_tail m a (move_end l (m.queues a).tail (link l m a t))

  round_link :
      (f self t : ℕ)
      → index_of l (m.queues a).tail ≡ t
      → is_last l (link l m a t) ≡ true
      → run (append_loop l (suc f) a self) m ≡ done tt (linked self t)
  unfolding append_loop
  round_link f self t h e = ground arith

  round_help :
      (f self t : ℕ)
      → index_of l (m.queues a).tail ≡ t
      → is_last l (link l m a t) ≡ false
      → run (append_loop l (suc f) a self) m ≡ run (append_loop l f a self) (helped t)
  unfolding append_loop
  round_help f self t h e = ground arith

  link-linked : (self t j : ℕ) → (j == t) ≡ false → link l (linked self t) a j ≡ link l m a j
  link-linked self t j o = ground arith

  link-linked_self : (self t : ℕ) → link l (linked self t) a t ≡ link_to l (link l m a t) self
  link-linked_self self t = ground arith

-- What an append to the queue of `a` leaves alone: the other queues, and all fields but `next`.
pub record Spares (l : Layout) (a : ℕ) (m m' : Memory) : Type 0 where
  pub links : (c i : ℕ) → (c == a) ≡ false → i < array_len l → link l m' c i ≡ link l m c i
  pub ends : (c : ℕ) → (c == a) ≡ false → m'.queues c ≡ m.queues c
  pub selves : (r : ℕ) → (m'.records r).self ≡ (m.records r).self
  pub words : (r : ℕ) → (m'.records r).next_record ≡ (m.records r).next_record
  pub pointers : (r : ℕ) → (m'.records r).pointer ≡ (m.records r).pointer

module _ (l : Layout) (a : ℕ) where
  Spares-trans : {m n p : Memory} → Spares l a m n → Spares l a n p → Spares l a m p
  Spares-trans s t = record {
    links = λ c i o h. t.links c i o h ∙ s.links c i o h;
    ends = λ c o. t.ends c o ∙ s.ends c o;
    selves = λ r. t.selves r ∙ s.selves r;
    words = λ r. t.words r ∙ s.words r;
    pointers = λ r. t.pointers r ∙ s.pointers r;
  }

  Spares-next : (m : Memory) (j w : ℕ) → j < array_len l → Spares l a m (with_next m (slot l a j) w)
  Spares-next m j w k = record {
    links = λ c i o h. ground (arith, slot-ne l c a i j o h k);
    ends = λ c o. refl;
    selves = λ r. ground arith;
    words = λ r. ground arith;
    pointers = λ r. ground arith;
  }

  Spares-tail : (m : Memory) (w : ℕ) → Spares l a m (with_tail m a w)
  Spares-tail m w = record {
    links = λ c i o h. refl;
    ends = λ c o. ground arith;
    selves = λ r. refl;
    words = λ r. refl;
    pointers = λ r. refl;
  }

-- The queue of `a` holds `xs`, seen from a tail with `behind` still before it.
record Lagging (l : Layout) (a : ℕ) (m : Memory) (xs before behind : List ℕ) : Type 0 where
  chain : Chain l (link l m a) (index_of l (m.queues a).head) xs
  at_tail : Chain l (link l m a) (index_of l (m.queues a).tail) behind
  split : before ++ behind ≡ xs

-- What `return_Record` comes to for the record `r` of array `a`.
abbrev Appended : (l : Layout) → ℕ → Memory → List ℕ → ℕ → Memory → Type 0
Appended l a m xs r m' = Holds l m' a (xs ++ r ∷ []) × Spares l a m m'

module _ (l : Layout) (a r : ℕ) (lt : r < array_len l) where
  -- The link behind the last record `t`, and the tail moved onto `r`.
  linked-Holds :
      (m : Memory) (before : List ℕ) (t : ℕ)
      → Chain l (link l m a) (index_of l (m.queues a).head) (before ++ t ∷ [])
      → Distinct (before ++ t ∷ [])
      → r ∉ before ++ t ∷ []
      → is_last l (link l m a r) ≡ true
      → Holds l (linked l a m (slot l a r) t) a ((before ++ t ∷ []) ++ r ∷ [])
  linked-Holds m before t c d o e = record {
    chain =
        rw (append_assoc before (t ∷ []) (r ∷ []), head-with_tail n a _)
          (Chain-append l (link l m a) _ (index_of l (m.queues a).head) r before t c
            (λ j h. link-linked l a m self t j (ne_of-Distinct before j t d h))
            (rw (link-linked_self l a m self t) (is_last-link_to l _ self))
            (rw (link-linked_self l a m self t, index_of-link_to) (index_of-slot l a r lt)) kept);
    before = before ++ t ∷ [];
    behind = r ∷ [];
    split = refl;
    at_tail = (rw (tail-with_tail n a _, index_of-move_end) (index_of-slot l a r lt), kept);
    distinct = Distinct-append (before ++ t ∷ []) r d o;
  }
    where
      self : ℕ
      self = slot l a r

      n : Memory
      n = with_next m (slot l a t) (link_to l (link l m a t) self)

      kept : is_last l (link l (linked l a m self t) a r) ≡ true
      kept = rw (link-linked l a m self t r (ground (arith, has-append r before (t ∷ [])))) e

module _ (l : Layout) (a r : ℕ) (lt : r < array_len l) (xs : List ℕ) (fresh : r ∉ xs)
    (distinct : Distinct xs) where
  linked-xs :
      (m : Memory) (before : List ℕ) (t : ℕ)
      → before ++ t ∷ [] ≡ xs
      → Chain l (link l m a) (index_of l (m.queues a).head) xs
      → is_last l (link l m a r) ≡ true
      → Holds l (linked l a m (slot l a r) t) a (xs ++ r ∷ [])
  linked-xs m before t split c e =
      subst (λ ys. Holds l (linked l a m (slot l a r) t) a (ys ++ r ∷ [])) split
        (linked-Holds l a r lt m before t (rw split c) (rw split distinct) (rw split fresh) e)

  append_loop-Appended :
      (f : ℕ) (m : Memory) (before behind : List ℕ)
      → Lagging l a m xs before behind
      → is_last l (link l m a r) ≡ true
      → length behind ≤ f
      → (m' : Memory) × (run (append_loop l f a (slot l a r)) m ≡ done tt m')
        × Appended l a m xs r m'
  append_loop-Appended f m before [] g e h = absurd g.at_tail
  append_loop-Appended zero m before (t ∷ behind) g e h = absurd (omega arith)
  append_loop-Appended (suc f) m before (t ∷ []) g e h = (
    linked l a m (slot l a r) t,
    round_link l a m f (slot l a r) t g.at_tail.0 g.at_tail.1,
    (
      linked-xs m before t g.split g.chain e,
      Spares-trans l a (Spares-next l a m t _ (rw (← g.at_tail.0) (index_of-lt l _)))
          (Spares-tail l a _ _),
    ),
  )
  append_loop-Appended (suc f) m before (t ∷ u ∷ behind) g e h =
      let (m', ran, k) =
        append_loop-Appended f (helped l a m t) (before ++ t ∷ []) (u ∷ behind)
          (record {
            chain = rw (head-with_tail m a (move_end l (m.queues a).tail (link l m a t))) g.chain;
            at_tail =
                rw
                  (
                    tail-with_tail m a (move_end l (m.queues a).tail (link l m a t)),
                    index_of-move_end,
                  )
                  g.at_tail.2;
            split = append_assoc before _ _ ∙ g.split;
          })
          e (omega arith) in
      (
        m',
        round_help l a m f (slot l a r) t g.at_tail.0 g.at_tail.1 ∙ ran,
        (k.0, Spares-trans l a (Spares-tail l a m _) k.1),
      )

module _ (l : Layout) (m : Memory) (a r : ℕ) where
  -- The record with its tail bit set, before the loop.
  abbrev marked : Memory
  marked = with_next m (slot l a r) (mark_last l (link l m a r))

  return-append :
      (f : ℕ)
      → a < array_num l
      → r < array_len l
      → (m.records (slot l a r)).self ≡ slot l a r
      → run (return_record l f (slot l a r)) m ≡ run (append_loop l f a (slot l a r)) marked
  unfolding return_record
  return-append f k h e =
      let e' : (marked.records (slot l a r)).self ≡ slot l a r = ground arith in
      ap (λ self. run (append_loop l f (self / array_len l % array_num l) self) marked) e'
      ∙ ap (λ c. run (append_loop l f c (slot l a r)) marked) (array_of-slot l a r h k)

  link-marked : (i : ℕ) → (i == r) ≡ false → link l marked a i ≡ link l m a i
  link-marked i o = ground arith

  is_last-marked : is_last l (link l marked a r) ≡ true
  is_last-marked =
      let e : link l marked a r ≡ mark_last l (link l m a r) = ground arith in
      rw e (is_last-mark_last l _)

pub ne_of-has : (i r : ℕ) (xs : List ℕ) → has i xs ≡ true → r ∉ xs → (i == r) ≡ false
ne_of-has i r xs e o = elim (Bool-cases (i == r)) [
  | inl same ↦ absurd (ground (arith, eq-of-== i r same))
  | inr differ ↦ differ
]

-- `return_Record` puts a record that is not free behind the free records of its own array, and
-- leaves the other queues and all other fields alone. One round of its loop for each record of the
-- queue is enough, however far the tail lags behind.
pub return_record-IsPool :
    (l : Layout) (m : Memory) (free : ℕ → List ℕ) (a r f : ℕ)
    → IsPool l m free
    → a < array_num l
    → r < array_len l
    → r ∉ free a
    → length (free a) ≤ f
    → (m' : Memory) × (run (return_record l f (slot l a r)) m ≡ done tt m')
      × IsPool l m' (update free a (free a ++ r ∷ []))
      × Spares l a m m'
return_record-IsPool l m free a r f p k h o g =
    let (m', ran, x) =
      append_loop-Appended l a r h (free a) o q.distinct f (marked l m a r) q.before q.behind
        (record { chain = q.chain; at_tail = q.at_tail; split = q.split }) (is_last-marked l m a r)
        (omega (arith, ap (length {0}) q.split, length-append q.before q.behind)) in
    let spares = Spares-trans l a (Spares-next l a m r _ h) x.1 in
    (
      m',
      return-append l m a r f k h (p.named a r k h) ∙ ran,
      IsPool-update a p x.0 spares.links spares.ends spares.selves,
      spares,
    )
  where
    q : Holds l (marked l m a r) a (free a)
    q =
        Holds-frame a (p.holds a k) (λ i e j. link-marked l m a r i (ne_of-has i r (free a) e o))
          refl
