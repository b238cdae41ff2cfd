-- ===== src/Pool/Worker/Same.antt =====
-- What a call of the pool, run alone, leaves alone: all but the queues and their links.
use psly_algorithm.Base.{ℕ, ◌≡◌, refl, Option, ◌∙◌}
use psly_algorithm.Prog.{run, done, Obeys-mono, run-Obeys}
use psly_algorithm.Pool.{Layout, Memory, get_record, return_record}
use psly_algorithm.Pool.Worker.{Tagged}
use psly_algorithm.Pool.Worker.Tags.{get_record-Obeys, return_record-Obeys}

pub record Same (m m' : Memory) : Type 0 where
  pub selves : (r : ℕ) → (m'.records r).self ≡ (m.records r).self
  pub words : (r : ℕ) → (m'.records r).next_record ≡ (m.records r).next_record
  pub pointers : (r : ℕ) → (m'.records r).pointer ≡ (m.records r).pointer
  pub lists : m'.lists ≡ m.lists

Same-refl : (m : Memory) → Same m m
Same-refl m = record { selves = λ r. refl; words = λ r. refl; pointers = λ r. refl; lists = refl }

Same-trans : (m n o : Memory) → Same m n → Same n o → Same m o
Same-trans m n o h k = record {
  selves = λ r. k.selves r ∙ h.selves r;
  words = λ r. k.words r ∙ h.words r;
  pointers = λ r. k.pointers r ∙ h.pointers r;
  lists = k.lists ∙ h.lists;
}

module _ (l : Layout) (returned : ℕ → Type 0) where
  Tagged-Same : (m m' : Memory) → Tagged l returned m m' → Same m m'
  Tagged-Same m m' h = record {
    selves = h.selves;
    words = h.words;
    pointers = h.pointers;
    lists = h.lists;
  }

module _ (l : Layout) (fuel : ℕ) (m m' : Memory) where
  pub get_record-Same : {a : Option ℕ} → run (get_record l fuel) m ≡ done a m' → Same m m'
  get_record-Same e =
      let returned : ℕ → Type 0 = λ _. Unit in
      run-Obeys Same-refl Same-trans
        (Obeys-mono (Tagged-Same l returned) (get_record-Obeys l returned fuel)) e

  pub return_record-Same : (r : ℕ) → run (return_record l fuel r) m ≡ done tt m' → Same m m'
  return_record-Same r e =
      let returned : ℕ → Type 0 = λ _. Unit in
      run-Obeys Same-refl Same-trans
        (Obeys-mono (Tagged-Same l returned) (return_record-Obeys l returned fuel r tt)) e
