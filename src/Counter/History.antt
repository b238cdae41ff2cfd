-- ===== src/Counter/History.antt =====
-- The words that were ever swapped into the counter, the newest first; before them stood 0.
use psly_algorithm.Base.{
  ℕ, suc, ◌+◌, ◌%◌, ◌^◌, ◌≤◌, ◌≡◌, refl, ◌⊎◌, inl, inr, List, [], ◌∷◌, length, arith, ◌==◌,
  if◌then◌else◌, Bool-cases, eq-of-==, ==_refl, sym,
}
use psly_algorithm.Counter.{index, version_of}

-- The word that the counter has.
abbrev pub current : List ℕ → ℕ
current [] = 0
current (w ∷ s) = w

-- The last version that thread `i` swapped in.
abbrev pub published : ℕ → List ℕ → ℕ
published i [] = 0
published i (w ∷ s) = if index w == i then version_of w else published i s

-- The numbers that the calls of thread `i` have fetched, the newest first.
abbrev pub fetched : ℕ → List ℕ → List ℕ
fetched i [] = []
fetched i (w ∷ s) = if index w == i then length s % 2 ^ 32 ∷ fetched i s else fetched i s

-- Each word has the next version of the thread that it names.
abbrev pub IsHistory : List ℕ → Type 0
IsHistory [] = Unit
IsHistory (w ∷ s) = (version_of w ≡ published (index w) s + 1) × IsHistory s

-- The word `w` was swapped in as the `n`-th.
abbrev pub Stood : ℕ → ℕ → List ℕ → Type 0
Stood w n [] = (w ≡ 0) × (n ≡ 0)
Stood w n (x ∷ s) = ((w ≡ x) × (n ≡ suc (length s))) ⊎ Stood w n s

-- The same, and the counter has another word since.
abbrev pub Past : ℕ → ℕ → List ℕ → Type 0
Past w n [] = ⊥
Past w n (x ∷ s) = Stood w n s

pub current-Stood : (s : List ℕ) → Stood (current s) (length s) s
current-Stood [] = (refl, refl)
current-Stood (w ∷ s) = inl (refl, refl)

pub Past-more : (w n x : ℕ) (s : List ℕ) → Past w n s → Stood w n s
Past-more w n x [] h = absurd h
Past-more w n x (y ∷ s) h = inr h

version_of-0 : version_of 0 ≡ 0
unfolding version_of
version_of-0 = refl

pub published-current : (s : List ℕ) → published (index (current s)) s ≡ version_of (current s)
published-current [] = sym version_of-0
published-current (w ∷ s) = rw (==_refl (index w)) refl

Stood-published :
    (w n : ℕ) (s : List ℕ) → IsHistory s → Stood w n s → version_of w ≤ published (index w) s
Stood-published w n [] h e = rw e.0 (omega (arith, version_of-0))
Stood-published w n (x ∷ s) h (inl e) = rw (e.0, ==_refl (index x)) (omega arith)
Stood-published w n (x ∷ s) h (inr e) =
    let below = Stood-published w n s h.1 e in
    elim (Bool-cases (index x == index w)) [
      | inl same ↦
          let next : version_of x ≡ published (index w) s + 1 =
            rw (← eq-of-== (index x) (index w) same) h.0 in
          rw same (omega (arith, below, next))
      | inr other ↦ rw other below
    ]

-- No word comes back.
pub Past-current : (n : ℕ) (s : List ℕ) → IsHistory s → Past (current s) n s → ⊥
Past-current n [] h p = p
Past-current n (w ∷ s) h p = omega (arith, h.0, Stood-published w n s h.1 p)

-- So the number of a word that the counter has is the count.
pub Stood-current : (n : ℕ) (s : List ℕ) → IsHistory s → Stood (current s) n s → n ≡ length s
Stood-current n [] h e = e.1
Stood-current n (w ∷ s) h (inl e) = e.1
Stood-current n (w ∷ s) h (inr e) = absurd (Past-current n (w ∷ s) h e)
