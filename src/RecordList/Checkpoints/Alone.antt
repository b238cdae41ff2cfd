-- ===== src/RecordList/Checkpoints/Alone.antt =====
-- The list of hazard_long.c run alone: where nothing behind the walk changes, it never goes back, and does
-- what that of lockfreelist_now.c does.
use psly_algorithm.Base.{ℕ, zero, suc, ◌≡◌, refl, true, false, ◌==◌}
use psly_algorithm.Pool.{Layout, Memory}
use psly_algorithm.RecordList.{Task, Local, Flag, record_flag, search_flag, remove_flag}
use psly_algorithm.RecordList as Plain
use psly_algorithm.Prog.{Prog}
use psly_algorithm.RecordList.Checkpoints.{Trail, resume, pass, keep_prev, at_place}
use psly_algorithm.RecordList.Checkpoints.Same.{
  standing, Same, round-Same, entry-Same, KeySame, search_place-Same, remove_place-Same,
  removed_key-Same,
}
use psly_algorithm.RecordList.Word.{ref_count}
use psly_algorithm.RecordList.Round.{word_of}

-- A walk that changes no entry: a search, or a removal that has removed its entry.
abbrev pub Quiet : Flag → Local → Type 0
Quiet record_flag s = ⊥
Quiet search_flag s = Unit
Quiet remove_flag s = s.removed ≡ true

module _ (l : Layout) (t : Task) (fuel : ℕ) (m : Memory) (f : Flag) (e : t.flag ≡ f) where
  Quiet-place :
      (n : ℕ) (back again on plain : Local → Prog Memory ℕ) (s : Local) (p q : ℕ)
      → Quiet f s
      → Same m
          (at_place l t fuel back again on n (standing m s p q))
          (Plain.at_place l t fuel plain n (standing m s p q))
  Quiet-place n back again on plain s p q h =
      elim f
          as (λ x.
            t.flag ≡ x
            → Quiet x s
            → Same m (at_place l t fuel back again on n (standing m s p q))
                (Plain.at_place l t fuel plain n (standing m s p q))) [
                  | record_flag ↦ λ e h. absurd h
                  | search_flag ↦ λ e h. search_place-Same l t fuel n m back again on plain s p q e
                  | remove_flag ↦ λ e h. remove_place-Same l t fuel n m back again on plain s p q e
                ]
        e h

  Quiet-key :
      (n : ℕ) (back again on plain : Local → Prog Memory ℕ) (s : Local) (p q : ℕ)
      → Quiet f s
      → KeySame l t fuel n m back again on plain s p q f
  Quiet-key n back again on plain s p q h =
      elim f as (λ x. Quiet x s → KeySame l t fuel n m back again on plain s p q x) [
        | record_flag ↦ λ h. absurd h
        | search_flag ↦ λ h. tt
        | remove_flag ↦ λ h. removed_key-Same l t fuel n m back again on plain s p q h
      ]
        h

  pub Quiet-Same :
      (n : ℕ) (c : Trail) (s : Local) (p q : ℕ)
      → Quiet f s
      → (ref_count l (word_of m p) == 0) ≡ false
      → Same m
          (keep_prev l t fuel n c (standing m s p q))
          (Plain.keep_prev l t fuel n (standing m s p q))
  unfolding keep_prev Plain.keep_prev
  Quiet-Same zero c s p q h live = refl
  Quiet-Same (suc n) c s p q h live =
      let main = keep_prev l t fuel n in
      let back = resume l main c in
      let on = main (pass c (standing m s p q)) in
      let plain = Plain.keep_prev l t fuel n in
      round-Same l t fuel n m c s p q live (λ _. Quiet-place n back (main c) on plain s p q h)
        (λ _.
          entry-Same l t fuel n m back (main c) on plain s p q f e
            (λ _. Quiet-Same n c s p _ h live) (λ _ _. Quiet-key n back (main c) on plain s p q h)
            (λ live' _. Quiet-Same n _ s q _ h live'))
