-- ===== src/Prog/Advance.antt =====
-- A thread of a system that makes some accesses while the others wait.
use psly_algorithm.Base.{ℕ, zero, suc, ◌≡◌, refl, update}
use psly_algorithm.Prog.{Prog, ret, act, out_of_fuel, crash, System, step, Reach, later}

module _ {M A : Type 0} where
  -- The next access of thread `i`, whose program is `q`; none if it is at its end.
  abbrev pub after : ℕ → System M A → Prog M A → System M A
  after i s (ret a) = s
  after i s (act f k) = record { mem = (f s.mem).1; thread = update s.thread i (k (f s.mem).0) }
  after i s out_of_fuel = s
  after i s crash = s

  -- `n` accesses of thread `i`.
  abbrev pub advance : ℕ → ℕ → System M A → System M A
  advance i zero s = s
  advance i (suc n) s = advance i n (after i s (s.thread i))

  Reach-after :
      (i : ℕ) (s t : System M A) (q : Prog M A) → t.thread i ≡ q → Reach s t → Reach s (after i t q)
  Reach-after i s t (ret a) e r = r
  Reach-after i s t (act f k) e r = later r (step i e)
  Reach-after i s t out_of_fuel e r = r
  Reach-after i s t crash e r = r

  pub Reach-advance : (i n : ℕ) (s t : System M A) → Reach s t → Reach s (advance i n t)
  Reach-advance i zero s t r = r
  Reach-advance i (suc n) s t r =
      Reach-advance i n s (after i t (t.thread i)) (Reach-after i s t (t.thread i) refl r)
