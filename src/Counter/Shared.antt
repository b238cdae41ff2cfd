-- ===== src/Counter/Shared.antt =====
-- What the threads of the counter may do to it and what they may rely on; the value beside the memory is
-- the history of its words.

use psly_algorithm.Base.{
  ℕ, ◌+◌, ◌%◌, ◌^◌, ◌<◌, ◌≡◌, refl, false, inr, List, ◌∷◌, length, ◌==◌, ◌∙◌, arith,
}
use psly_algorithm.Prog.Rely.{Protocol, IsProtocol}
use psly_algorithm.Counter.{Counter, index, version_of}
use psly_algorithm.Counter.History.{current, published, fetched, IsHistory, Stood, Past, Past-more}

-- The counter stands at the number of words in its history.
pub record Stands (m : Counter) (s : List ℕ) : Type 0 where
  pub history : IsHistory s
  pub word : m.word ≡ current s
  pub value : (m.handles (index m.word)).value (version_of m.word % 2) ≡ length s % 2 ^ 64

-- One access of thread `i` swaps in no word, or one that names it.
pub data Swaps (i : ℕ) (s : List ℕ) : List ℕ → Type 0 where
  unchanged : Swaps i s s
  swapped : (w : ℕ) → index w ≡ i → Swaps i s (w ∷ s)

pub record Acts (i : ℕ) (m : Counter) (s : List ℕ) (m' : Counter) (s' : List ℕ) : Type 0 where
  pub swaps : Swaps i s s'
  pub handles : (j : ℕ) → (j == i) ≡ false → m'.handles j ≡ m.handles j

-- The others swap in words that do not name thread `i`.
pub data Grows (i : ℕ) (s : List ℕ) : List ℕ → Type 0 where
  kept : Grows i s s
  grown : {t : List ℕ} (w : ℕ) → (index w == i) ≡ false → Grows i s t → Grows i s (w ∷ t)

pub record Sees (i : ℕ) (m : Counter) (s : List ℕ) (m' : Counter) (s' : List ℕ) : Type 0 where
  pub grows : Grows i s s'
  pub handle : m'.handles i ≡ m.handles i

abbrev pub counter : Protocol Counter (List ℕ)
counter = record { inv = Stands; may = Acts; sees = Sees }

pub Grows-trans : (i : ℕ) {s t u : List ℕ} → Grows i s t → Grows i t u → Grows i s u
Grows-trans i g kept = g
Grows-trans i g (grown w n h) = grown w n (Grows-trans i g h)

pub Sees-refl : (i : ℕ) (m : Counter) (s : List ℕ) → Sees i m s m s
Sees-refl i m s = record { grows = kept; handle = refl }

pub Sees-trans :
    (i : ℕ) (m : Counter) (s : List ℕ) (m' : Counter) (s' : List ℕ) (m'' : Counter) (s'' : List ℕ)
    → Sees i m s m' s'
    → Sees i m' s' m'' s''
    → Sees i m s m'' s''
Sees-trans i m s m' s' m'' s'' a b = record {
  grows = Grows-trans i a.grows b.grows;
  handle = b.handle ∙ a.handle;
}

Swaps-Grows : (i j : ℕ) {s t : List ℕ} → (j == i) ≡ false → Swaps i s t → Grows j s t
Swaps-Grows i j other unchanged = kept
Swaps-Grows i j other (swapped w e) = grown w (ground (arith, e)) kept

pub counter-IsProtocol : IsProtocol counter
counter-IsProtocol = record {
  sees_refl = Sees-refl;
  sees_trans = Sees-trans;
  sees_may = λ i j m s m' s' other v a. record {
    grows = Swaps-Grows i j other a.swaps;
    handle = a.handles j other;
  };
}

-- What a thread knows of itself before a call, where `k` calls are left to make.
pub record Knows (i k : ℕ) (answers : List ℕ) (m : Counter) (s : List ℕ) : Type 0 where
  pub version : (m.handles i).version ≡ published i s
  pub room : published i s + k < 2 ^ 16
  pub answered : answers ≡ fetched i s

module _ (i : ℕ) where
  pub published-Grows : {s t : List ℕ} → Grows i s t → published i t ≡ published i s
  published-Grows kept = refl
  published-Grows (grown w n g) = rw n (published-Grows g)

  pub fetched-Grows : {s t : List ℕ} → Grows i s t → fetched i t ≡ fetched i s
  fetched-Grows kept = refl
  fetched-Grows (grown w n g) = rw n (fetched-Grows g)

  pub Stood-Grows : (w n : ℕ) {s t : List ℕ} → Grows i s t → Stood w n s → Stood w n t
  Stood-Grows w n kept h = h
  Stood-Grows w n (grown x e g) h = inr (Stood-Grows w n g h)

  pub Past-Grows : (w n : ℕ) {s t : List ℕ} → Grows i s t → Past w n s → Past w n t
  Past-Grows w n kept h = h
  Past-Grows w n {s} (grown {t} x e g) h = Past-more w n x t (Past-Grows w n g h)

  pub Knows-Sees :
      (k : ℕ) (answers : List ℕ) (m : Counter) (s : List ℕ) (m' : Counter) (s' : List ℕ)
      → Sees i m s m' s'
      → Knows i k answers m s
      → Knows i k answers m' s'
  Knows-Sees k answers m s m' s' r h = record {
    version = rw (r.handle, published-Grows r.grows) h.version;
    room = rw (published-Grows r.grows) h.room;
    answered = rw (fetched-Grows r.grows) h.answered;
  }
