-- ===== src/NodeQueue/Shared/Known.antt =====
-- What a thread knows of the queue and keeps knowing while others work on it.
use psly_algorithm.Base.{
  ℕ, ◌≡◌, ◌≢◌, sym, ◌∙◌, true, false, inl, inr, List, has, arith, ◌==◌, Bool-cases, eq-of-==,
}
use psly_algorithm.Hazard.{Heap}
use psly_algorithm.NodeQueue.Shared.{nxt, Sees}
use psly_algorithm.NodeQueue.Shared.Rules.{IsFresh, IsFresh-Sees}

pub ne-of-== : (a : ℕ) → (a == 0) ≡ false → a ≢ 0
ne-of-== a h z = ground arith

pub other_than :
    (later : List ℕ) (node : ℕ)
    → has node later ≡ false
    → (x : ℕ) → has x later ≡ true
    → (x == node) ≡ false
other_than later node out x h = elim (Bool-cases (x == node)) [
  | inl here ↦ absurd (ground (arith, eq-of-== x node here))
  | inr other ↦ other
]

-- The nodes of thread `i` that it will link.
abbrev pub Fresh : (ℕ → ℕ) → ℕ → List ℕ → List ℕ → Type 0
Fresh owner i later s = (r : ℕ) → has r later ≡ true → IsFresh owner i r s

module _ {X : Type 0} (owner : ℕ → ℕ) (i : ℕ) (later : List ℕ) where
  pub Fresh-Sees :
      {m : Heap X} {s : List ℕ} (n : Heap X) (t : List ℕ)
      → Fresh owner i later s
      → Sees owner i m s n t
      → Fresh owner i later t
  Fresh-Sees {m} {s} n t f r = λ x h. IsFresh-Sees owner i x m s n t r (f x h)

  abbrev pub AllFresh : {A : Type 0} → A → Heap X → List ℕ → Type 0
  AllFresh a m s = Fresh owner i later s

  -- The node behind which `node` is linked.
  abbrev pub Linked : ℕ → ℕ → Heap X → List ℕ → Type 0
  Linked node t m s = (has t s ≡ true) × (nxt m t ≡ node) × Fresh owner i later s

  -- What the thread knows of its node before it is linked.
  pub record Ready (node : ℕ) (m : Heap X) (s : List ℕ) : Type 0 where
    pub fresh : IsFresh owner i node s
    pub next : nxt m node ≡ 0
    pub others : Fresh owner i later s

  pub Ready-Sees :
      (node : ℕ) (m : Heap X) (s : List ℕ) (n : Heap X) (t : List ℕ)
      → Sees owner i m s n t
      → Ready node m s
      → Ready node n t
  Ready-Sees node m s n t r f = record {
    fresh = IsFresh-Sees owner i node m s n t r f.fresh;
    next = (r.mine node f.fresh.mine f.fresh.out).1 ∙ f.next;
    others = Fresh-Sees n t f.others r;
  }

  pub Linked-Sees :
      (node t : ℕ)
      → node ≢ 0
      → (m : Heap X) (s : List ℕ) (n : Heap X) (u : List ℕ) → Sees owner i m s n u
      → Linked node t m s
      → Linked node t n u
  Linked-Sees node t not_null m s n u r h =
      (r.grows t h.0, r.kept t h.0 (λ z. not_null (sym h.1 ∙ z)) ∙ h.1, Fresh-Sees n u h.2 r)

  -- The same, and that `t` is linked.
  pub record Known (node t : ℕ) (m : Heap X) (s : List ℕ) : Type 0 where
    pub ready : Ready node m s
    pub on : has t s ≡ true

  pub Known-Sees :
      (node t : ℕ) {m : Heap X} {s : List ℕ} (n : Heap X) (u : List ℕ)
      → Known node t m s
      → Sees owner i m s n u
      → Known node t n u
  Known-Sees node t {m} {s} n u k r = record {
    ready = Ready-Sees node m s n u r k.ready;
    on = r.grows t k.on;
  }

  -- `next` stands behind the linked node `h`.
  pub record Behind (h next : ℕ) (m : Heap X) (s : List ℕ) : Type 0 where
    pub on : has h s ≡ true
    pub follows : nxt m h ≡ next
    pub others : Fresh owner i later s

  pub Behind-Sees :
      (h next : ℕ) {m : Heap X} {s : List ℕ} (n : Heap X) (t : List ℕ)
      → next ≢ 0
      → Behind h next m s
      → Sees owner i m s n t
      → Behind h next n t
  Behind-Sees h next n t not_null b r = record {
    on = r.grows h b.on;
    follows = r.kept h b.on (λ z. not_null (sym b.follows ∙ z)) ∙ b.follows;
    others = Fresh-Sees n t b.others r;
  }
