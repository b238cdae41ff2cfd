-- ===== src/RecordList/Init/Spare.antt =====
-- How many records a pool can give: each queue keeps one back.
use native.Mathlib.Nat.{suc-mul}
use psly_algorithm.Base.{
  ℕ, zero, suc, ◌+◌, ◌-◌, ◌*◌, ◌≤◌, length, ◌<◌, ◌≡◌, refl, false, List, ◌∷◌, arith, ◌==◌,
  Bool-cases, inl, inr, eq-of-==, ==_refl, ap, update,
}
use psly_algorithm.Pool.Get.{Single}
use psly_algorithm.Pool.Init.Fresh.{count_up}

-- How many records the queues of the first `n` arrays can give.
abbrev pub spare : (ℕ → List ℕ) → ℕ → ℕ
spare free zero = 0
spare free (suc n) = length (free n) - 1 + spare free n

pub spare-Single :
    (free : ℕ → List ℕ) (n : ℕ) → ((c : ℕ) → c < n → Single (free c)) → spare free n ≡ 0
spare-Single free zero all = refl
spare-Single free (suc n) all =
    rw (all n (omega arith)).1 (omega (arith, spare-Single free n (λ c h. all c (omega arith))))

spare-other :
    (free : ℕ → List ℕ) (c n : ℕ) (xs : List ℕ) → n ≤ c → spare (update free c xs) n ≡ spare free n
spare-other free c zero xs h = refl
spare-other free c (suc n) xs h =
    let o : (n == c) ≡ false = ground arith in
    rw o (omega (arith, spare-other free c n xs (omega arith)))

pub spare-update :
    (free : ℕ → List ℕ) (c n x y : ℕ) (r : List ℕ)
    → c < n
    → free c ≡ x ∷ y ∷ r
    → suc (spare (update free c (y ∷ r)) n) ≡ spare free n
spare-update free c zero x y r h e = absurd (omega arith)
spare-update free c (suc n) x y r h e = elim (Bool-cases (n == c)) [
  | inl here ↦
      rw (eq-of-== n c here, ==_refl c, e)
        (omega (arith, spare-other free c c (y ∷ r) (omega arith)))
  | inr away ↦
      let lt : c < n = ground arith in rw away (omega (arith, spare-update free c n x y r lt e))
]

pub spare-const : (xs : List ℕ) (n : ℕ) → spare (λ _. xs) n ≡ n * (length xs - 1)
spare-const xs zero = omega arith
spare-const xs (suc n) = rw (suc-mul n (length xs - 1)) (omega (arith, spare-const xs n))

pub length-count_up : (i n : ℕ) → length (count_up i n) ≡ n
unfolding count_up
length-count_up i zero = refl
length-count_up i (suc n) = ap suc (length-count_up (i + 1) n)
