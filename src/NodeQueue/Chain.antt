-- ===== src/NodeQueue/Chain.antt =====
-- The nodes of the queue in the order in which they were linked, each with the next one behind it.
use psly_algorithm.Base.{
  ℕ, ◌≡◌, ◌≢◌, ◌∙◌, true, false, List, [], ◌∷◌, ◌++◌, has, arith, ◌==◌, ◌||◌, Bool-cases, inl, inr,
  eq-of-==, ==_refl,
}

abbrev pub Chain : (ℕ → ℕ) → List ℕ → Type 0
Chain f [] = ⊥
Chain f (x ∷ []) = f x ≡ 0
Chain f (x ∷ y ∷ r) = (f x ≡ y) × Chain f (y ∷ r)

module _ (f : ℕ → ℕ) where
  -- The node behind a node of the chain is in the chain.
  pub Chain-next : (g : List ℕ) (t : ℕ) → Chain f g → has t g ≡ true → f t ≢ 0 → has (f t) g ≡ true
  Chain-next [] t c h n = elim c [ ]
  Chain-next (x ∷ []) t c h n = absurd (ground (arith, n))
  Chain-next (x ∷ y ∷ r) t c h n = elim (Bool-cases (t == x)) [
    | inl here ↦ rw (eq-of-== t x here, c.0) (ground (arith, ==_refl y))
    | inr other ↦
        let inner : has t (y ∷ r) ≡ true = rw other at h in
        let on : has (f t) (y ∷ r) ≡ true = Chain-next (y ∷ r) t c.1 inner n in ground (arith)
  ]

  module _ (f' : ℕ → ℕ) where
    -- What is outside the chain may change.
    pub Chain-frame :
        (g : List ℕ) → ((r : ℕ) → has r g ≡ true → f' r ≡ f r) → Chain f g → Chain f' g
    Chain-frame [] same c = elim c [ ]
    Chain-frame (x ∷ []) same c = same x (ground (arith, ==_refl x)) ∙ c
    Chain-frame (x ∷ y ∷ r) same c = (
      same x (ground (arith, ==_refl x)) ∙ c.0,
      Chain-frame (y ∷ r) (λ z h. same z (ground arith)) c.1,
    )

    -- A new node behind the last.
    pub Chain-append :
        (g : List ℕ) (t n : ℕ)
        → Chain f g
        → has t g ≡ true
        → f t ≡ 0
        → has 0 g ≡ false
        → f' t ≡ n
        → f' n ≡ 0
        → ((r : ℕ) → (r == t) ≡ false → f' r ≡ f r)
        → Chain f' (g ++ n ∷ [])
    Chain-append [] t n c h e z a b same = elim c [ ]
    Chain-append (x ∷ []) t n c h e z a b same = elim (Bool-cases (t == x)) [
      | inl here ↦ (rw (← eq-of-== t x here) a, b)
      | inr other ↦ ground (arith)
    ]
    Chain-append (x ∷ y ∷ r) t n c h e z a b same = elim (Bool-cases (x == t)) [
      | inl here ↦ absurd (ground (arith, eq-of-== x t here, c.0, ==_refl 0))
      | inr other ↦ (
        same x other ∙ c.0,
        Chain-append (y ∷ r) t n c.1 (ground arith) e (ground arith) a b same,
      )
    ]

pub has-append : (r n : ℕ) (g : List ℕ) → has r (g ++ n ∷ []) ≡ (has r g || (r == n))
has-append r n [] = ground arith
has-append r n (x ∷ g) = ground (arith, has-append r n g)
