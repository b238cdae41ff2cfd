-- ===== src/NodeQueue/Holds.antt =====
-- What a queue holds: the nodes behind its dummy and their values.
use psly_algorithm.Base.{
  ℕ, ◌≡◌, refl, ap, true, false, List, [], ◌∷◌, ◌++◌, ◌∉◌, has, arith, ==_refl,
}
use psly_algorithm.Hazard.{Heap}
use psly_algorithm.NodeQueue.Shared.{nxt, val}
use psly_algorithm.NodeQueue.Chain.{Chain}

-- The values of nodes.
abbrev pub values_of : {X : Type 0} → Heap X → List ℕ → List ℕ
values_of m [] = []
values_of m (n ∷ ns) = val m n ∷ values_of m ns

-- The queue holds the nodes `ns` behind its dummy, and `Tail` is the dummy or one of them.
pub record Holds {X : Type 0} (m : Heap X) (ns : List ℕ) : Type 0 where
  pub chain : Chain (nxt m) (m.head ∷ ns)
  pub no_null : 0 ∉ (m.head ∷ ns)
  pub before : List ℕ
  pub after : List ℕ
  pub split : m.head ∷ ns ≡ before ++ m.tail ∷ after

pub Chain-suffix :
    (f : ℕ → ℕ) (b : List ℕ) (t : ℕ) (a : List ℕ) → Chain f (b ++ t ∷ a) → Chain f (t ∷ a)
Chain-suffix f [] t a c = c
Chain-suffix f (x ∷ []) t a c = c.1
Chain-suffix f (x ∷ y ∷ b) t a c = Chain-suffix f (y ∷ b) t a c.1

pub has-suffix :
    (r : ℕ) (b : List ℕ) (t : ℕ) (a : List ℕ) → has r (t ∷ a) ≡ true → has r (b ++ t ∷ a) ≡ true
has-suffix r [] t a h = h
has-suffix r (x ∷ b) t a h = ground (arith, has-suffix r b t a h)

pub values_of-same :
    {X : Type 0} (m m' : Heap X) (ns : List ℕ)
    → ((r : ℕ) → has r ns ≡ true → val m' r ≡ val m r)
    → values_of m' ns ≡ values_of m ns
values_of-same m m' [] same = refl
values_of-same m m' (n ∷ ns) same =
    rw (same n (ground (arith, ==_refl n)), values_of-same m m' ns (λ r h. same r (ground arith)))
      refl

pub values_of-append :
    {X : Type 0} (m : Heap X) (ns : List ℕ) (n : ℕ)
    → values_of m (ns ++ n ∷ []) ≡ values_of m ns ++ val m n ∷ []
values_of-append m [] n = refl
values_of-append m (x ∷ ns) n = ap (λ (l : List ℕ). val m x ∷ l) (values_of-append m ns n)

pub hasnt-suffix :
    (r : ℕ) (b : List ℕ) (t : ℕ) (a : List ℕ) → has r (b ++ t ∷ a) ≡ false → has r (t ∷ a) ≡ false
hasnt-suffix r [] t a h = h
hasnt-suffix r (x ∷ b) t a h = hasnt-suffix r b t a (ground arith)
