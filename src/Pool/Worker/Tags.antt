-- ===== src/Pool/Worker/Tags.antt =====
-- What one access of `get_Record` or `return_Record` leaves alone, whatever the other threads do.
use psly_algorithm.Base.{
  ℕ, zero, suc, ◌+◌, ◌≡◌, refl, Option, none, some, true, arith, ◌==◌, Bool-cases, inl, inr,
  eq-of-==,
}
use psly_algorithm.Prog.{
  finish, access, give_up, Prog, ◌>>=◌, Obeys, Obeys->>=, Obeys-if, Obeys-dif,
}
use psly_algorithm.Pool.{
  read, Layout, Memory, array_num, slot, index_of, is_last, move_end, link_to, get_record,
  return_record, take_from, take_round, take_each, append_loop, cas, or_else, with_head, with_tail,
  with_next, cas_head, cas_tail, cas_next,
}
use psly_algorithm.Pool.Words.{is_last-mark_last}
use psly_algorithm.Pool.Worker.{Moved, stays, moves, Relinked, kept, linked, stored, Tagged}

module _ (l : Layout) (returned : ℕ → Type 0) where
  Moved-eq : (w w' : ℕ) → w' ≡ w → Moved l w w'
  Moved-eq w w' e = rw e stays

  Moved-to : (w w' i : ℕ) → w' ≡ move_end l w i → Moved l w w'
  Moved-to w w' i e = rw e (moves i)

  Relinked-eq : (r w w' : ℕ) → w' ≡ w → Relinked l (returned r) w w'
  Relinked-eq r w w' e = rw e kept

  Tagged-refl :
      (m m' : Memory)
      → m'.records ≡ m.records
      → m'.queues ≡ m.queues
      → m'.lists ≡ m.lists
      → Tagged l returned m m'
  Tagged-refl m m' r q e = record {
    heads = λ a. rw q stays;
    tails = λ a. rw q stays;
    nexts = λ x. rw r kept;
    selves = λ x. rw r;
    words = λ x. rw r;
    pointers = λ x. rw r;
    lists = e;
  }

  quiet : (m : Memory) → Tagged l returned m m
  quiet m = Tagged-refl m m refl refl refl

  Tagged-head :
      (m : Memory) (a w i : ℕ)
      → (m.queues a).head ≡ w
      → Tagged l returned m (with_head m a (move_end l w i))
  Tagged-head m a w i e = record {
    heads = λ c. elim (Bool-cases (c == a)) [
      | inl here ↦ Moved-to _ _ i (ground (arith, eq-of-== c a here))
      | inr other ↦ Moved-eq _ _ (ground arith)
    ];
    tails = λ c. Moved-eq _ _ (ground arith);
    nexts = λ x. kept;
    selves = λ x. refl;
    words = λ x. refl;
    pointers = λ x. refl;
    lists = refl;
  }

  Tagged-tail :
      (m : Memory) (a w i : ℕ)
      → (m.queues a).tail ≡ w
      → Tagged l returned m (with_tail m a (move_end l w i))
  Tagged-tail m a w i e = record {
    heads = λ c. Moved-eq _ _ (ground arith);
    tails = λ c. elim (Bool-cases (c == a)) [
      | inl here ↦ Moved-to _ _ i (ground (arith, eq-of-== c a here))
      | inr other ↦ Moved-eq _ _ (ground arith)
    ];
    nexts = λ x. kept;
    selves = λ x. refl;
    words = λ x. refl;
    pointers = λ x. refl;
    lists = refl;
  }

  Tagged-next :
      (m : Memory) (r w : ℕ)
      → Relinked l (returned r) (m.records r).next w
      → Tagged l returned m (with_next m r w)
  Tagged-next m r w e = record {
    heads = λ c. stays;
    tails = λ c. stays;
    nexts = λ x. elim (Bool-cases (x == r)) [
      | inl here ↦ rw here (rw (eq-of-== x r here) e)
      | inr other ↦ Relinked-eq x _ _ (ground arith)
    ];
    selves = λ x. ground arith;
    words = λ x. ground arith;
    pointers = λ x. ground arith;
    lists = refl;
  }

  -- The three compare-and-swaps.
  cas_head-Tagged :
      (a w i : ℕ) (m : Memory)
      → Tagged l returned m
          (cas (λ m. (m.queues a).head) (λ m w. with_head m a w) w (move_end l w i) m).1
  cas_head-Tagged a w i m = elim (Bool-cases ((m.queues a).head == w)) [
    | inl won ↦ rw won (Tagged-head m a w i (eq-of-== _ w won))
    | inr lost ↦ rw lost (Tagged-refl m m refl refl refl)
  ]

  cas_tail-Tagged :
      (a w i : ℕ) (m : Memory)
      → Tagged l returned m
          (cas (λ m. (m.queues a).tail) (λ m w. with_tail m a w) w (move_end l w i) m).1
  cas_tail-Tagged a w i m = elim (Bool-cases ((m.queues a).tail == w)) [
    | inl won ↦ rw won (Tagged-tail m a w i (eq-of-== _ w won))
    | inr lost ↦ rw lost (Tagged-refl m m refl refl refl)
  ]

  cas_next-Tagged :
      (r w i : ℕ) (m : Memory)
      → is_last l w ≡ true
      → Tagged l returned m
          (cas (λ m. (m.records r).next) (λ m w. with_next m r w) w (link_to l w i) m).1
  cas_next-Tagged r w i m last = elim (Bool-cases ((m.records r).next == w)) [
    | inl won ↦ rw won (Tagged-next m r _ (rw (eq-of-== _ w won) (linked i last)))
    | inr lost ↦ rw lost (Tagged-refl m m refl refl refl)
  ]

  abbrev G : Memory → Memory → Type 0
  G = Tagged l returned

  module _ {A : Type 0} {k : ℕ → Prog Memory A} (h : (w : ℕ) → Obeys G (k w)) where
    read-Obeys : (f : Memory → ℕ) → Obeys G (read f >>= k)
    read-Obeys f = access quiet (λ m. h (f m))

    cas_head-Obeys : (a w i : ℕ) → Obeys G (cas_head a w (move_end l w i) >>= k)
    cas_head-Obeys a w i = access (cas_head-Tagged a w i) (λ m. h _)

    cas_tail-Obeys : (a w i : ℕ) → Obeys G (cas_tail a w (move_end l w i) >>= k)
    cas_tail-Obeys a w i = access (cas_tail-Tagged a w i) (λ m. h _)

    cas_next-Obeys : (r w i : ℕ) → is_last l w ≡ true → Obeys G (cas_next r w (link_to l w i) >>= k)
    cas_next-Obeys r w i last = access (λ m. cas_next-Tagged r w i m last) (λ m. h _)

  take_from-Obeys : (f a : ℕ) → Obeys G (take_from l f a)
  unfolding take_from
  take_from-Obeys zero a = give_up
  take_from-Obeys (suc f) a =
      let again = take_from-Obeys f a in
      read-Obeys
        (λ h.
          read-Obeys
            (λ t.
              read-Obeys
                (λ n.
                  read-Obeys
                    (λ h'.
                      Obeys-if (h == h')
                        (Obeys-if (index_of l h == index_of l t)
                          (Obeys-if (is_last l n) (finish none) (cas_tail-Obeys (λ _. again) a t n))
                          (cas_head-Obeys (λ won. Obeys-if (won == 1) (finish _) again) a h n))
                        again)
                    _)
                _)
            _)
        _

  append_loop-Obeys : (f a self : ℕ) → Obeys G (append_loop l f a self)
  unfolding append_loop
  append_loop-Obeys zero a self = give_up
  append_loop-Obeys (suc f) a self =
      let again = append_loop-Obeys f a self in
      read-Obeys
        (λ t.
          read-Obeys
            (λ n.
              read-Obeys
                (λ t'.
                  Obeys-if (t == t')
                    (Obeys-dif (is_last l n)
                      (cas_next-Obeys
                        (λ won.
                          Obeys-if (won == 1) (cas_tail-Obeys (λ _. finish tt) a t self) again)
                        (slot l a (index_of l t)) n self)
                      (cas_tail-Obeys (λ _. again) a t n))
                    again)
                _)
            _)
        _

  or_else-Obeys :
      {more : Prog Memory (Option ℕ)} → Obeys G more → (r : Option ℕ) → Obeys G (or_else r more)
  or_else-Obeys h none = h
  or_else-Obeys h (some r) = finish (some r)

  take_round-Obeys : (f n : ℕ) → Obeys G (take_round l f n)
  unfolding take_round
  take_round-Obeys f zero = finish none
  take_round-Obeys f (suc n) =
      access (λ m. Tagged-refl m _ refl refl refl)
        λ m. Obeys->>= _ (take_from-Obeys f _) (or_else-Obeys (take_round-Obeys f n))

  take_each-Obeys : (f n i : ℕ) → Obeys G (take_each l f n i)
  unfolding take_each
  take_each-Obeys f zero i = finish none
  take_each-Obeys f (suc n) i =
      Obeys->>= _ (take_from-Obeys f i) (or_else-Obeys (take_each-Obeys f n (i + 1)))

  pub get_record-Obeys : (f : ℕ) → Obeys G (get_record l f)
  unfolding get_record
  get_record-Obeys f =
      Obeys->>= _ (take_round-Obeys f (array_num l))
        (or_else-Obeys (take_each-Obeys f (array_num l) 0))

  pub return_record-Obeys : (f r : ℕ) → returned r → Obeys G (return_record l f r)
  unfolding return_record
  return_record-Obeys f r own =
      read-Obeys
        (λ w.
          access (λ m. Tagged-next m r _ (stored own (is_last-mark_last l w)))
            λ _. read-Obeys (λ self. append_loop-Obeys f _ self) _)
        _
