-- ===== src/RecordList/Checkpoints/Back.antt =====
-- The way back along the trail: it ends at the last record that was passed and not given back since.
use mathlib.Core.Path.{subst}
use psly_algorithm.Base.{
  ℕ, zero, suc, ◌≤◌, ◌<◌, ◌≡◌, refl, true, false, Option, some, arith, Bool-cases, inl, inr, ◌∙◌,
  sym, ap, ◌==◌, eq-of-==, ==_refl, update,
}
use psly_algorithm.Prog.{Prog, run, crash}
use psly_algorithm.Pool.{Layout, Memory}
use psly_algorithm.RecordList.{Local}
use psly_algorithm.RecordList.Checkpoints.{
  max_prev, Prevs, Trail, bucket, pass, resume, resume_at, resume_from,
}
use psly_algorithm.RecordList.Word.{moved_on}
use psly_algorithm.RecordList.Round.{word_of, behind}

module _ (l : Layout) (again : Trail → Local → Prog Memory ℕ) (c : Trail) (s : Local) (m : Memory)
    (passed : ℕ → Prevs) where
  -- The record at the place `j` was given back since it was passed.
  abbrev Gone : ℕ → Type 0
  Gone j = moved_on l (passed j).r_next (word_of m (passed j).r) ≡ true

  abbrev Held : ℕ → Type 0
  Held j = moved_on l (passed j).r_next (word_of m (passed j).r) ≡ false

  -- The trail up to the place `j`, with the word that its record has now.
  abbrev rewound : ℕ → Trail
  rewound j = record {
    prevs = update c.prevs j (some (record { r = (passed j).r; r_next = word_of m (passed j).r }));
    steps = j;
  }

  -- The walk goes on at the last place up to `k` whose record is held.
  pub record Resumed (k : ℕ) (q : Prog Memory ℕ) : Type 0 where
    pub place : ℕ
    pub within : place ≤ k
    pub held : Held place
    pub gone : (i : ℕ) → place < i → i ≤ k → Gone i
    pub goes_on : run q m ≡ run (again (rewound place) (behind l m s (passed place).r)) m

  resume_at-Held :
      (k : ℕ) (earlier : Prog Memory ℕ)
      → k < max_prev
      → c.prevs k ≡ some (passed k)
      → Held k
      → run (resume_at l again c s k earlier) m
        ≡ run (again (rewound k) (behind l m s (passed k).r)) m
  unfolding resume_at bucket
  resume_at-Held k earlier lt e h = ground arith

  resume_at-Gone :
      (k : ℕ) (earlier : Prog Memory ℕ)
      → k < max_prev
      → c.prevs k ≡ some (passed k)
      → Gone k
      → run (resume_at l again c s k earlier) m ≡ run earlier m
  unfolding resume_at bucket
  resume_at-Gone k earlier lt e h = ground arith

  resume_from-Resumed :
      (k : ℕ)
      → k < max_prev
      → ((j : ℕ) → j ≤ k → c.prevs j ≡ some (passed j))
      → Held 0
      → Resumed k (resume_from l again c s k)
  unfolding resume_from
  resume_from-Resumed zero lt all first = record {
    place = 0;
    within = omega arith;
    held = first;
    gone = λ i above below. absurd (omega (arith, above, below));
    goes_on = resume_at-Held 0 crash lt (all 0 (omega arith)) first;
  }
  resume_from-Resumed (suc k) lt all first =
      elim (Bool-cases (moved_on l (passed (suc k)).r_next (word_of m (passed (suc k)).r))) [
        | inr held ↦ record {
          place = suc k;
          within = omega arith;
          held = held;
          gone = λ i above below. absurd (omega (arith, above, below));
          goes_on = resume_at-Held (suc k) _ lt (all (suc k) (omega arith)) held;
        }
        | inl gone ↦
            let rest = resume_from-Resumed k (omega arith) (λ j h. all j (omega arith)) first in
            record {
              place = rest.place;
              within = omega (arith, rest.within);
              held = rest.held;
              gone = λ i above below. elim (Bool-cases (i == suc k)) [
                | inl last ↦ rw (eq-of-== i (suc k) last) gone
                | inr other ↦ rest.gone i above (ground (arith, below))
              ];
              goes_on = resume_at-Gone (suc k) _ lt (all (suc k) (omega arith)) gone ∙ rest.goes_on;
            }
      ]

-- The trail once `n` records were passed, with the walk at `walked j` when it passed the `j`-th.
abbrev pub trail : (ℕ → Option Prevs) → (ℕ → Local) → ℕ → Trail
trail prevs walked zero = record { prevs = prevs; steps = 0 }
trail prevs walked (suc n) = pass (trail prevs walked n) (walked n)

abbrev pub noted : (ℕ → Local) → ℕ → Prevs
noted walked j = record { r = (walked j).prev; r_next = (walked j).prev_next }

trail-steps :
    (prevs : ℕ → Option Prevs) (walked : ℕ → Local) (n : ℕ) → (trail prevs walked n).steps ≡ n
unfolding pass
trail-steps prevs walked zero = refl
trail-steps prevs walked (suc n) = ap suc (trail-steps prevs walked n)

trail-prevs :
    (prevs : ℕ → Option Prevs) (walked : ℕ → Local) (n j : ℕ)
    → n ≤ max_prev
    → j < n
    → (trail prevs walked n).prevs j ≡ some (noted walked j)
unfolding pass
trail-prevs prevs walked zero j le lt = absurd (omega (arith, lt))
trail-prevs prevs walked (suc n) j le lt = elim (Bool-cases (j == n)) [
  | inl here ↦ ground (arith, trail-steps prevs walked n, eq-of-== j n here, ==_refl n)
  | inr other ↦
      let before = trail-prevs prevs walked n j (omega (arith, le)) (ground (arith, lt)) in
      ground (arith, trail-steps prevs walked n)
]

resume-steps :
    (l : Layout) (again : Trail → Local → Prog Memory ℕ) (c : Trail) (s : Local) (k : ℕ)
    → c.steps ≡ suc k
    → resume_from l again c s k ≡ resume l again c s
unfolding resume
resume-steps l again c s k e =
    sym (ap (λ (x : ℕ). elim x [ zero ↦ crash | suc j ↦ resume_from l again c s j ]) e)

-- Run alone after the walk has passed at most MAXPREV records, the first of which still has the
-- version that it had, whatever earlier calls left in `prevs_`: the way back ends, inside of what this
-- call has noted, at the last record passed that still has the version that it had and a reference,
-- all that were passed later are gone, and the walk goes on behind that record.
pub resume-Resumed :
    (l : Layout) (again : Trail → Local → Prog Memory ℕ) (s : Local) (m : Memory)
    (prevs : ℕ → Option Prevs) (walked : ℕ → Local) (n : ℕ)
    → n < max_prev
    → moved_on l (walked 0).prev_next (word_of m (walked 0).prev) ≡ false
    → Resumed l again
        (trail prevs walked (suc n))
        s
        m
        (noted walked)
        n
        (resume l again (trail prevs walked (suc n)) s)
resume-Resumed l again s m prevs walked n lt first =
    let c = trail prevs walked (suc n) in
    subst (λ (q : Prog Memory ℕ). Resumed l again c s m (noted walked) n q)
      (resume-steps l again c s n (trail-steps prevs walked (suc n)))
      (resume_from-Resumed l again c s m (noted walked) n lt
        (λ j le. trail-prevs prevs walked (suc n) j lt (omega (arith, le))) first)
