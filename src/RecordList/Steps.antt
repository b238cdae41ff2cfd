-- ===== src/RecordList/Steps.antt =====
-- The walk over the entries of a list, step by step: it stops before a higher key, it finds the key, or
-- it goes past a lower one.
use psly_algorithm.Base.{ℕ, suc, ◌≡◌, refl, true, false, arith, ◌==◌, ◌∙◌, ==_refl}
use psly_algorithm.Prog.{run, done}
use psly_algorithm.Pool.{Layout, Memory}
use psly_algorithm.RecordList.{
  Task, Local, Flag, search_flag, key_above, keep_prev, at_place, at_key,
}
use psly_algorithm.RecordList.Word.{address, ref_count}
use psly_algorithm.RecordList.Round.{
  word_of, key_of, behind, round-place, round-entry, entry-pass, entry-found,
}

module _ (l : Layout) (t : Task) (fuel n : ℕ) (m : Memory) (s : Local) (p k : ℕ)
    (live : (ref_count l (word_of m p) == 0) ≡ false) where
  pub step-tail :
      address l (word_of m p) ≡ t.tail
      → run (keep_prev l t fuel (suc n) (behind l m s p)) m
        ≡ run (at_place l t fuel (keep_prev l t fuel n) n (behind l m s p)) m
  step-tail e = round-place l t fuel n m s p live (rw (e, ==_refl t.tail) refl)

  pub step-above :
      key_of m (address l (word_of m p)) ≡ k
      → key_above k t.key ≡ true
      → run (keep_prev l t fuel (suc n) (behind l m s p)) m
        ≡ run (at_place l t fuel (keep_prev l t fuel n) n (behind l m s p)) m
  step-above e above = round-place l t fuel n m s p live (ground arith)

module _ (l : Layout) (t : Task) (fuel n : ℕ) (m : Memory) (s : Local) (p k : ℕ)
    (live : (ref_count l (word_of m p) == 0) ≡ false)
    (inner : (address l (word_of m p) == t.tail) ≡ false)
    (key : key_of m (address l (word_of m p)) ≡ k)
    (alive : (ref_count l (word_of m (address l (word_of m p))) == 0) ≡ false)
    (low : key_above k t.key ≡ false) where
  abbrev curr : ℕ
  curr = address l (word_of m p)

  pub step-below :
      (k == t.key) ≡ false
      → run (keep_prev l t fuel (suc n) (behind l m s p)) m
        ≡ run (keep_prev l t fuel n (behind l m s curr)) m
  step-below other =
      round-entry l t fuel n m s p live (ground arith)
      ∙ entry-pass l t fuel n m (behind l m s p) alive t.flag refl (ground arith)

  pub step-found :
      (f : Flag)
      → t.flag ≡ f
      → (k == t.key) ≡ true
      → run (keep_prev l t fuel (suc n) (behind l m s p)) m ≡ elim f [
        | search_flag ↦ done (ref_count l (word_of m curr)) m
        | _ ↦ run (at_key l t fuel (keep_prev l t fuel n) n (behind l m s p) (word_of m curr)) m
      ]
  step-found f e same =
      round-entry l t fuel n m s p live (ground arith)
      ∙ entry-found l t fuel n m (behind l m s p) alive f e (ground arith)
