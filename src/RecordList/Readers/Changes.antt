-- ===== src/RecordList/Readers/Changes.antt =====
-- What each kind of access of `psly_search` and `psly_remove` changes, by the words that stood there
-- before.
use psly_algorithm.Base.{
  ℕ, ◌≡◌, refl, arith, ◌==◌, Bool-cases, inl, inr, eq-of-==, ◌∙◌, if◌then◌else◌,
}
use psly_algorithm.Prog.History.{Observed}
use psly_algorithm.Pool.{Layout, Memory}
use psly_algorithm.Pool.Worker.{Tagged}
use psly_algorithm.RecordList.{with_word, with_pointer}
use psly_algorithm.RecordList.Word.{next_address_version}
use psly_algorithm.RecordList.Round.{word_of, key_of}
use psly_algorithm.RecordList.Stores.{self_of, word-with_word_here}
use psly_algorithm.RecordList.Readers.{
  Stepped, stays, relinked, counted_down, Cleared, kept, cleared, Shrinks,
}

module _ (l : Layout) (had : ℕ → ℕ → Type 0) (self : ℕ → ℕ) where
  Stepped-eq : (r w w' : ℕ) → w' ≡ w → Stepped l had self r w w'
  Stepped-eq r w w' e = rw e stays

  Stepped-to : (r w w' v : ℕ) → w' ≡ v → Stepped l had self r w v → Stepped l had self r w w'
  Stepped-to r w w' v e h = rw e h

  Cleared-eq : (k k' : ℕ) → k' ≡ k → Cleared k k'
  Cleared-eq k k' e = rw e kept

  pub Shrinks-refl : (m : Memory) → Shrinks l had self m m
  Shrinks-refl m = record { words = λ r. stays; keys = λ r. kept; selves = λ r. refl; lists = refl }

  pub Tagged-Shrinks : (m m' : Memory) → Tagged l (λ _. Unit {0}) m m' → Shrinks l had self m m'
  Tagged-Shrinks m m' h = record {
    words = λ r. Stepped-eq r _ _ (h.words r);
    keys = λ r. Cleared-eq _ _ (h.pointers r);
    selves = h.selves;
    lists = h.lists;
  }

  pub Shrinks-word :
      (m : Memory) (r w : ℕ)
      → Stepped l had self r (word_of m r) w
      → Shrinks l had self m (with_word m r w)
  Shrinks-word m r w h = record {
    words = λ x. elim (Bool-cases (x == r)) [
      | inl here ↦ rw (eq-of-== x r here) (Stepped-to r _ _ w (word-with_word_here m r w) h)
      | inr other ↦ Stepped-eq x _ _ (ground arith)
    ];
    keys = λ x. Cleared-eq _ _ (ground arith);
    selves = λ x. ground arith;
    lists = refl;
  }

  pub Shrinks-clear : (m : Memory) (r : ℕ) → Shrinks l had self m (with_pointer m r 0)
  Shrinks-clear m r = record {
    words = λ x. Stepped-eq x _ _ (ground arith);
    keys = λ x. elim (Bool-cases (x == r)) [
      | inl here ↦ rw (key_of, here) cleared
      | inr other ↦ rw (key_of, other) kept
    ];
    selves = λ x. ground arith;
    lists = refl;
  }

  pub Shrinks-swap :
      (m : Memory) (r old q : ℕ)
      → Shrinks l had self m
          (if word_of m r == old then with_word m r (next_address_version l old (self q)) else m)
  Shrinks-swap m r old q = elim (Bool-cases (word_of m r == old)) [
    | inr lost ↦ rw lost (Shrinks-refl m)
    | inl won ↦ rw won (Shrinks-word m r _ (rw (eq-of-== (word_of m r) old won) (relinked q)))
  ]

module _ (l : Layout) (self : ℕ → ℕ) (had has' : ℕ → ℕ → Type 0)
    (h : (r w : ℕ) → had r w → has' r w) where
  Stepped-mono : (r w w' : ℕ) → Stepped l had self r w w' → Stepped l has' self r w w'
  Stepped-mono r w w' stays = stays
  Stepped-mono r w w' (relinked q) = relinked q
  Stepped-mono r w w' (counted_down v x live) = counted_down v (h r v x) live

  pub Shrinks-mono : (m m' : Memory) → Shrinks l had self m m' → Shrinks l has' self m m'
  Shrinks-mono m m' s = record {
    words = λ r. Stepped-mono r _ _ (s.words r);
    keys = s.keys;
    selves = s.selves;
    lists = s.lists;
  }

-- The words of the list, by what they were.
abbrev pub lives : Layout → (ℕ → ℕ) → Observed Memory
lives l self = record {
  obs = word_of;
  inv = λ m. (r : ℕ) → self_of m r ≡ self r;
  change = λ had. Shrinks l had self;
  same = λ had m. Shrinks-refl l had self m;
  keeps = λ had m m' v c r. c.selves r ∙ v r;
  mono = λ had has' h m m'. Shrinks-mono l self had has' h m m';
}
