-- ===== src/Pool/Worker/History/Rules.antt =====
-- What each kind of access to a queue changes, by the words that stood there before.
use psly_algorithm.Base.{
  ℕ, ◌≡◌, refl, true, arith, ◌==◌, ==_refl, Bool-cases, inl, inr, eq-of-==, ◌∙◌,
}
use psly_algorithm.Prog.History.{Observed}
use psly_algorithm.Pool.{
  Layout, Memory, index_of, is_last, slot, move_end, link_to, cas, with_head, with_tail, with_next,
}
use psly_algorithm.Pool.Worker.History.{
  Advanced, stays, advances, Rewritten, kept, linked, marked, Versioned,
}

module _ (l : Layout) (had : ℕ → ℕ → Type 0) (returned : ℕ → Type 0) (self : ℕ → ℕ) where
  Advanced-eq : (a w w' : ℕ) → w' ≡ w → Advanced l had a w w'
  Advanced-eq a w w' e = rw e stays

  Advanced-to :
      (a w w' n : ℕ) → had (slot l a (index_of l w)) n → w' ≡ move_end l w n → Advanced l had a w w'
  Advanced-to a w w' n h e = rw e (advances n h)

  Rewritten-eq : (r w w' : ℕ) → w' ≡ w → Rewritten l had returned self r w w'
  Rewritten-eq r w w' e = rw e kept

  pub Versioned-same :
      (m m' : Memory)
      → m'.records ≡ m.records
      → m'.queues ≡ m.queues
      → m'.lists ≡ m.lists
      → Versioned l had returned self m m'
  Versioned-same m m' r q e = record {
    heads = λ a. rw q stays;
    tails = λ a. rw q stays;
    nexts = λ x. rw r kept;
    selves = λ x. rw r;
    words = λ x. rw r;
    pointers = λ x. rw r;
    lists = e;
  }

  with_head-Versioned :
      (m : Memory) (a n : ℕ)
      → had (slot l a (index_of l (m.queues a).head)) n
      → Versioned l had returned self m (with_head m a (move_end l (m.queues a).head n))
  with_head-Versioned m a n h = record {
    heads = λ c. elim (Bool-cases (c == a)) [
      | inl here ↦ rw (eq-of-== c a here) (Advanced-to a _ _ n h (ground (arith, ==_refl a)))
      | inr other ↦ Advanced-eq c _ _ (ground arith)
    ];
    tails = λ c. Advanced-eq c _ _ (ground arith);
    nexts = λ x. kept;
    selves = λ x. refl;
    words = λ x. refl;
    pointers = λ x. refl;
    lists = refl;
  }

  with_tail-Versioned :
      (m : Memory) (a n : ℕ)
      → had (slot l a (index_of l (m.queues a).tail)) n
      → Versioned l had returned self m (with_tail m a (move_end l (m.queues a).tail n))
  with_tail-Versioned m a n h = record {
    heads = λ c. Advanced-eq c _ _ (ground arith);
    tails = λ c. elim (Bool-cases (c == a)) [
      | inl here ↦ rw (eq-of-== c a here) (Advanced-to a _ _ n h (ground (arith, ==_refl a)))
      | inr other ↦ Advanced-eq c _ _ (ground arith)
    ];
    nexts = λ x. kept;
    selves = λ x. refl;
    words = λ x. refl;
    pointers = λ x. refl;
    lists = refl;
  }

  pub with_next-Versioned :
      (m : Memory) (r w : ℕ)
      → Rewritten l had returned self r (m.records r).next w
      → Versioned l had returned self m (with_next m r w)
  with_next-Versioned m r w e = record {
    heads = λ c. stays;
    tails = λ c. stays;
    nexts = λ x. elim (Bool-cases (x == r)) [
      | inl here ↦ rw here (rw (eq-of-== x r here) e)
      | inr other ↦ Rewritten-eq x _ _ (ground arith)
    ];
    selves = λ x. ground arith;
    words = λ x. ground arith;
    pointers = λ x. ground arith;
    lists = refl;
  }

  pub cas_head-Versioned :
      (a w n : ℕ) (m : Memory)
      → had (slot l a (index_of l w)) n
      → Versioned l had returned self m
          (cas (λ m. (m.queues a).head) (λ m w. with_head m a w) w (move_end l w n) m).1
  cas_head-Versioned a w n m h = elim (Bool-cases ((m.queues a).head == w)) [
    | inl won ↦
        let e = eq-of-== (m.queues a).head w won in
        rw won (rw (← e) (with_head-Versioned m a n (rw e h)))
    | inr lost ↦ rw lost (Versioned-same m m refl refl refl)
  ]

  pub cas_tail-Versioned :
      (a w n : ℕ) (m : Memory)
      → had (slot l a (index_of l w)) n
      → Versioned l had returned self m
          (cas (λ m. (m.queues a).tail) (λ m w. with_tail m a w) w (move_end l w n) m).1
  cas_tail-Versioned a w n m h = elim (Bool-cases ((m.queues a).tail == w)) [
    | inl won ↦
        let e = eq-of-== (m.queues a).tail w won in
        rw won (rw (← e) (with_tail-Versioned m a n (rw e h)))
    | inr lost ↦ rw lost (Versioned-same m m refl refl refl)
  ]

  pub cas_next-Versioned :
      (r w q : ℕ) (m : Memory)
      → is_last l w ≡ true
      → returned q
      → Versioned l had returned self m
          (cas (λ m. (m.records r).next) (λ m w. with_next m r w) w (link_to l w (self q)) m).1
  cas_next-Versioned r w q m last own = elim (Bool-cases ((m.records r).next == w)) [
    | inl won ↦
        rw won
          (with_next-Versioned m r _ (rw (eq-of-== (m.records r).next w won) (linked q own last)))
    | inr lost ↦ rw lost (Versioned-same m m refl refl refl)
  ]

module _ (l : Layout) (returned : ℕ → Type 0) (self : ℕ → ℕ) (had has' : ℕ → ℕ → Type 0)
    (h : (r w : ℕ) → had r w → has' r w) where
  Advanced-mono : (a w w' : ℕ) → Advanced l had a w w' → Advanced l has' a w w'
  Advanced-mono a w w' stays = stays
  Advanced-mono a w w' (advances n x) = advances n (h _ n x)

  Rewritten-mono :
      (r w w' : ℕ) → Rewritten l had returned self r w w' → Rewritten l has' returned self r w w'
  Rewritten-mono r w w' kept = kept
  Rewritten-mono r w w' (linked q own last) = linked q own last
  Rewritten-mono r w w' (marked n own x) = marked n own (h r n x)

  pub Versioned-mono :
      (m m' : Memory) → Versioned l had returned self m m' → Versioned l has' returned self m m'
  Versioned-mono m m' v = record {
    heads = λ a. Advanced-mono a _ _ (v.heads a);
    tails = λ a. Advanced-mono a _ _ (v.tails a);
    nexts = λ r. Rewritten-mono r _ _ (v.nexts r);
    selves = v.selves;
    words = v.words;
    pointers = v.pointers;
    lists = v.lists;
  }

-- The links of the queues, by the words that they had.
abbrev pub tags : Layout → (ℕ → Type 0) → (ℕ → ℕ) → Observed Memory
tags l returned self = record {
  obs = λ m r. (m.records r).next;
  inv = λ m. (r : ℕ) → (m.records r).self ≡ self r;
  change = λ had. Versioned l had returned self;
  same = λ had m. Versioned-same l had returned self m m refl refl refl;
  keeps = λ had m m' v c r. c.selves r ∙ v r;
  mono = λ had has' h m m'. Versioned-mono l returned self had has' h m m';
}
