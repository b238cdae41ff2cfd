-- ===== src/Pool/Growing/Shared.antt =====
-- What any number of threads keep of the growing pool of cfilesforhazardpointer/hazard_long2.c.
use psly_algorithm.Base.{ℕ, ◌/◌, ◌≤◌, ◌<◌, ◌≡◌, refl, ◌∙◌, true, arith}
use psly_algorithm.Prog.{Prog, ret, act, out_of_fuel, crash}
use psly_algorithm.Prog.Rely.{Protocol, IsProtocol, Safe, IsSafe}
use psly_algorithm.Pool.{Layout, Memory, array_len, array_num}
use psly_algorithm.Pool.Growing.{Growing, in_pool}
use psly_algorithm.Pool.Growing.Fits.{SameSelves, Fits}

-- At least one array is counted, no more than there is room for, and each of them is there.
pub record IsCounted (l : Layout) (m : Growing) : Type 0 where
  pub some_array : 0 < m.arrays
  pub room : m.arrays ≤ array_num l
  pub here : (a : ℕ) → a < m.arrays → m.present a ≡ true

module _ (l : Layout) where
  -- Arrays are added only, behind the others, and an array that is there keeps its records' names.
  pub record Grown (m m' : Growing) : Type 0 where
    pub arrays : m.arrays ≤ m'.arrays
    pub present : (a : ℕ) → m.present a ≡ true → m'.present a ≡ true
    pub selves :
        (r : ℕ)
        → m.present (r / array_len l) ≡ true
        → (m'.pool.records r).self ≡ (m.pool.records r).self

  pub Grown-refl : (m : Growing) → Grown m m
  Grown-refl m = record { arrays = omega arith; present = λ a h. h; selves = λ r h. refl }

  Grown-trans : (m n o : Growing) → Grown m n → Grown n o → Grown m o
  Grown-trans m n o h k = record {
    arrays = omega (arith, h.arrays, k.arrays);
    present = λ a x. k.present a (h.present a x);
    selves = λ r x. k.selves r (h.present (r / array_len l) x) ∙ h.selves r x;
  }

  abbrev pub growing : Protocol Growing (Unit {0})
  growing = record {
    inv = λ m _. IsCounted l m;
    may = λ _ m _ m' _. Grown m m';
    sees = λ _ m _ m' _. Grown m m';
  }

  pub growing-IsProtocol : IsProtocol growing
  growing-IsProtocol = record {
    sees_refl = λ i m s. Grown-refl m;
    sees_trans = λ i m s m' s' m'' s'' h k. Grown-trans m m' m'' h k;
    sees_may = λ i j m s m' s' other v h. h;
  }

  SameSelves-Grown :
      (m : Growing) (q : Memory) → SameSelves m.pool q → Grown m (record m { pool = q })
  SameSelves-Grown m q h = record { arrays = omega arith; present = λ a x. x; selves = λ r x. h r }

  -- A program of the pool is safe, and gives back what fits.
  in_pool-Safe :
      (i : ℕ) {A : Type 0} (P : A → Type 0) (p : Prog Memory A) (o m : Growing) (s : Unit {0})
      → Fits P p
      → Grown o m
      → Safe growing i (λ a n t. P a × Grown o n) (in_pool p) m s
  unfolding in_pool
  in_pool-Safe i P (ret a) o m s h g = λ n t r. (h, Grown-trans o m n g r)
  in_pool-Safe i P (act f k) o m s h g = λ n t r v.
      let q = (f n.pool).1 in
      let to = SameSelves-Grown n q (h n.pool).0 in
      (
        t,
        record { some_array = v.some_array; room = v.room; here = v.here },
        to,
        in_pool-Safe i P (k (f n.pool).0) o (record n { pool = q }) t (h n.pool).1
            (Grown-trans o n (record n { pool = q }) (Grown-trans o m n g r) to),
      )
  in_pool-Safe i P out_of_fuel o m s h g = tt
  in_pool-Safe i P crash o m s h g = tt

  pub in_pool-IsSafe :
      (i : ℕ) {A : Type 0} (P : A → Type 0) (p : Prog Memory A) (m : Growing) (s : Unit {0})
      → Fits P p
      → IsSafe growing i (λ a n t. P a × Grown m n) (in_pool p) m s
  in_pool-IsSafe i P p m s h = record { safe = in_pool-Safe i P p m m s h (Grown-refl m) }
