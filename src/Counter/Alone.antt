-- ===== src/Counter/Alone.antt =====
-- `getAndIncrement` run alone, by any thread: it returns the count and counts on.
use psly_algorithm.Base.{
  ℕ, suc, ◌+◌, ◌%◌, ◌^◌, ◌<◌, ◌≡◌, eq-of-==, false, arith, ◌==◌, ==_refl, Bool-cases, inl, inr,
}
use psly_algorithm.Prog.{run, done}
use psly_algorithm.Counter.{
  Counter, index, version_of, next_word, get_and_increment, with_value, with_version,
}

-- The counter stands at `c`: the version in the word is that of the handle that it names, and says which
-- of its values is meant.
pub record Counts (m : Counter) (c : ℕ) : Type 0 where
  pub current : (m.handles (index m.word)).value (version_of m.word % 2) ≡ c
  pub owner : (m.handles (index m.word)).version ≡ version_of m.word

module _ (m : Counter) (thread : ℕ) where
  abbrev version : ℕ
  version = (m.handles thread).version

  abbrev after : ℕ → Counter
  after c =
      with_version
        (record (with_value m thread ((version + 1) % 2) ((c + 1) % 2 ^ 64)) {
          word = next_word thread version;
        })
        thread ((version + 1) % 2 ^ 16)

  increment-run :
      (f c : ℕ)
      → (m.handles (index m.word)).value (version_of m.word % 2) ≡ c
      → run (get_and_increment (suc f) thread) m ≡ done (c % 2 ^ 32) (after c)
  unfolding get_and_increment
  increment-run f c e = ground (arith, ==_refl m.word, ==_refl thread)

pub index-next_word : (thread v : ℕ) → thread < 2 ^ 16 → index (next_word thread v) ≡ thread
unfolding index next_word
index-next_word thread v lt = omega arith

pub version_of-next_word : (thread v : ℕ) → version_of (next_word thread v) ≡ (v + 1) % 2 ^ 16
unfolding version_of next_word
version_of-next_word thread v = omega arith

pub parity : (v : ℕ) → v % 2 ^ 16 % 2 ≡ v % 2
parity v = omega arith

-- Run alone by any thread with a number of 16 bits, one round of fuel is enough: `getAndIncrement`
-- returns the lower 32 bits of the count, and the counter stands at the next count, modulo 2^64.
pub get_and_increment-Counts :
    (m : Counter) (thread f c : ℕ)
    → Counts m c
    → thread < 2 ^ 16
    → (m' : Counter) × (run (get_and_increment (suc f) thread) m ≡ done (c % 2 ^ 32) m')
      × Counts m' ((c + 1) % 2 ^ 64)
get_and_increment-Counts m thread f c h lt = (
  after m thread c,
  increment-run m thread f c h.current,
  record {
    current =
        rw
          (
            index-next_word thread (version m thread) lt,
            version_of-next_word thread (version m thread),
            parity (version m thread + 1),
          )
          (ground (arith, ==_refl thread, ==_refl ((version m thread + 1) % 2)));
    owner =
        rw
          (
            index-next_word thread (version m thread) lt,
            version_of-next_word thread (version m thread),
          )
          (ground (arith, ==_refl thread));
  },
)

halves : (v : ℕ) → (v % 2 == (v + 1) % 2) ≡ false
halves v = ground arith

-- The store that a thread makes before its compare-and-swap, of any value, goes to the half of its
-- handle that the counter does not stand on: the count stays, whichever thread the word names.
pub with_value-Counts :
    (m : Counter) (thread c v : ℕ)
    → Counts m c
    → Counts (with_value m thread (((m.handles thread).version + 1) % 2) v) c
with_value-Counts m thread c v h = elim (Bool-cases (index m.word == thread)) [
  | inl own ↦ rw (← eq-of-== (index m.word) thread own) (record {
    current =
        ground (arith, halves (version_of m.word), h.current, h.owner, ==_refl (index m.word));
    owner = ground (arith, h.owner, ==_refl (index m.word));
  })
  | inr other ↦ record { current = ground (arith, h.current); owner = ground (arith, h.owner) }
]
