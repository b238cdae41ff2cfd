-- ===== src/Pool/Chain.antt =====
-- The abstract view of a queue of free records: the list of the indices that its links visit.
use mathlib.Core.Bool.{or_assoc}
use psly_algorithm.Base.{
  ◌==◌, Bool-cases, inl, inr, eq-of-==, ℕ, ◌<◌, ◌≡◌, refl, true, false, ◌||◌, List, [], ◌∷◌, ◌++◌,
  arith, has, ◌∉◌,
}
use psly_algorithm.Pool.{Layout, array_len, index_of, is_last}
use psly_algorithm.Pool.Words.{index_of-lt}

abbrev pub Distinct : List ℕ → Type 0
Distinct [] = Unit
Distinct (x ∷ xs) = (x ∉ xs) × Distinct xs

pub has-append : (a : ℕ) (xs ys : List ℕ) → has a (xs ++ ys) ≡ (has a xs || has a ys)
has-append a [] ys = refl
has-append a (x ∷ xs) ys = rw (has-append a xs ys, or_assoc)

pub Distinct-append : (xs : List ℕ) (r : ℕ) → Distinct xs → r ∉ xs → Distinct (xs ++ r ∷ [])
Distinct-append [] r d o = (refl, tt)
Distinct-append (x ∷ xs) r d o =
    (rw (has-append x xs (r ∷ [])) (ground arith), Distinct-append xs r d.1 (ground arith))

-- From index `i` the links visit `xs`, of which the last alone has the tail bit.
abbrev pub Chain : Layout → (ℕ → ℕ) → ℕ → List ℕ → Type 0
Chain l next i [] = ⊥
Chain l next i (x ∷ []) = (i ≡ x) × (is_last l (next x) ≡ true)
Chain l next i (x ∷ y ∷ xs) =
    (i ≡ x) × (is_last l (next x) ≡ false) × Chain l next (index_of l (next x)) (y ∷ xs)

module _ (l : Layout) where
  pub Chain-frame :
      (f g : ℕ → ℕ) (i : ℕ) (xs : List ℕ)
      → ((j : ℕ) → has j xs ≡ true → g j ≡ f j)
      → Chain l f i xs
      → Chain l g i xs
  Chain-frame f g i [] same c = c
  Chain-frame f g i (x ∷ []) same c = (c.0, rw (same x (ground arith)) c.1)
  Chain-frame f g i (x ∷ y ∷ xs) same c =
      let e : g x ≡ f x = same x (ground arith) in
      let rest = Chain-frame f g (index_of l (f x)) (y ∷ xs) (λ j m. same j (ground arith)) c.2 in
      (c.0, rw e c.1, rw e rest)

  pub Chain-lt :
      (f : ℕ → ℕ) (i j : ℕ) (xs : List ℕ)
      → i < array_len l
      → Chain l f i xs
      → has j xs ≡ true
      → j < array_len l
  Chain-lt f i j [] h c m = ground arith
  Chain-lt f i j (x ∷ []) h c m = ground arith
  Chain-lt f i j (x ∷ y ∷ xs) h c m =
      ground (arith, Chain-lt f (index_of l (f x)) j (y ∷ xs) (index_of-lt l (f x)) c.2)

  -- A record linked behind the last.
  pub Chain-append :
      (f g : ℕ → ℕ) (i r : ℕ) (xs : List ℕ) (t : ℕ)
      → Chain l f i (xs ++ t ∷ [])
      → ((j : ℕ) → has j xs ≡ true → g j ≡ f j)
      → is_last l (g t) ≡ false
      → index_of l (g t) ≡ r
      → is_last l (g r) ≡ true
      → Chain l g i (xs ++ t ∷ r ∷ [])
  Chain-append f g i r [] t c same a b e = (c.0, a, (b, e))
  Chain-append f g i r (x ∷ []) t c same a b e =
      let k : g x ≡ f x = same x (ground arith) in (c.0, rw k c.1, (rw k c.2.0, a, (b, e)))
  Chain-append f g i r (x ∷ y ∷ xs) t c same a b e =
      let k : g x ≡ f x = same x (ground arith) in
      let rest =
        Chain-append f g (index_of l (f x)) r (y ∷ xs) t c.2 (λ j m. same j (ground arith)) a b e in
      (c.0, rw k c.1, rw k rest)

  pub Chain-head : (f : ℕ → ℕ) (i : ℕ) (xs : List ℕ) → Chain l f i xs → has i xs ≡ true
  Chain-head f i [] c = absurd c
  Chain-head f i (x ∷ []) c = ground arith
  Chain-head f i (x ∷ y ∷ xs) c = ground arith

pub has_of-append :
    (t : ℕ) (bs behind ys : List ℕ) → bs ++ behind ≡ ys → has t behind ≡ true → has t ys ≡ true
has_of-append t bs behind ys e h = rw (← e, has-append t bs behind, h) (ground arith)

-- A number that is not in a list differs from those of its end.
pub ne_of-append :
    (x t : ℕ) (bs behind ys : List ℕ)
    → bs ++ behind ≡ ys
    → has t behind ≡ true
    → x ∉ ys
    → (x == t) ≡ false
ne_of-append x t bs behind ys e h o = elim (Bool-cases (x == t)) [
  | inr differ ↦ differ
  | inl same ↦ ground (arith, eq-of-== x t same, has_of-append t bs behind ys e h)
]

pub ne_of-Distinct :
    (xs : List ℕ) (j t : ℕ) → Distinct (xs ++ t ∷ []) → has j xs ≡ true → (j == t) ≡ false
ne_of-Distinct [] j t d h = cc
ne_of-Distinct (x ∷ xs) j t d h = elim (Bool-cases (j == x)) [
  | inl same ↦
      let o = d.0 in let split = has-append x xs (t ∷ []) in rw (eq-of-== j x same) (ground arith)
  | inr other ↦ ne_of-Distinct xs j t d.1 (ground arith)
]
