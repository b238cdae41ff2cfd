-- ===== src/Prog/History.antt =====
-- Threads that rely on what a word was before: beside the memory stand the values that the words of it
-- had in the run, and an access may change the memory as these values allow.
use psly_algorithm.Base.{
  ℕ, ◌≡◌, refl, true, has, List, [], ◌∷◌, arith, ◌==◌, ==_refl, eq-of-==, Bool-cases, inl, inr,
}
use psly_algorithm.Prog.{
  Prog, ret, act, ◌>>=◌, Obeys, finish, access, give_up, fail, System, Step, Reach, start, later,
}
use psly_algorithm.Prog.Rely.{
  Protocol, IsProtocol, IsSafe, IsSafe->>=, ret-IsSafe, give_up-IsSafe, crash-IsSafe, AllSafe,
  Step-Safe,
}

-- The values that each word had, the last first.
abbrev pub Words : Type 0
Words = ℕ → List ℕ

abbrev pub Seen : Words → ℕ → ℕ → Type 0
Seen s r w = has w (s r) ≡ true

-- Which words are kept (`obs`), what holds between two accesses, and what an access may change, given
-- a relation that says which values a word had.
pub record Observed (M : Type 0) : Type 1 where
  pub obs : M → ℕ → ℕ
  pub inv : M → Type 0
  pub change : (ℕ → ℕ → Type 0) → M → M → Type 0
  pub same : (had : ℕ → ℕ → Type 0) (m : M) → change had m m
  pub keeps : (had : ℕ → ℕ → Type 0) (m m' : M) → inv m → change had m m' → inv m'
  pub mono :
      (had has' : ℕ → ℕ → Type 0)
      → ((r w : ℕ) → had r w → has' r w)
      → (m m' : M) → change had m m'
      → change has' m m'

-- On the way from `x` to `y` there is a state in which word `r` is `w`.
abbrev pub Had : {M A : Type 0} → (M → ℕ → ℕ) → System M A → System M A → ℕ → ℕ → Type 0
Had {M} {A} obs x y r w = (u : System M A) × Reach x u × Reach u y × (obs u.mem r ≡ w)

module _ {M : Type 0} (o : Observed M) where
  abbrev pub noted : M → Words → Words
  noted m s r = o.obs m r ∷ s r

  -- Every word is among the values that it had.
  pub record IsNoted (m : M) (s : Words) : Type 0 where
    pub current : (r : ℕ) → Seen s r (o.obs m r)
    pub holds : o.inv m

  pub record Notes (m : M) (s : Words) (m' : M) (s' : Words) : Type 0 where
    pub adds : s' ≡ noted m' s
    pub change : o.change (Seen s) m m'

  abbrev pub Grows : Words → Words → Type 0
  Grows s t = (r w : ℕ) → Seen s r w → Seen t r w

  abbrev pub history : Protocol M Words
  history = record { inv = IsNoted; may = λ _. Notes; sees = λ _ m s m' s'. Grows s s' }

  noted-Grows : (m : M) (s : Words) → Grows s (noted m s)
  noted-Grows m s r w h = ground (arith, h)

  pub history-IsProtocol : IsProtocol history
  history-IsProtocol = record {
    sees_refl = λ i m s r w h. h;
    sees_trans = λ i m s m' s' m'' s'' h k r w x. k r w (h r w x);
    sees_may = λ i j m s m' s' other v a r w x. rw a.adds (noted-Grows m' s r w x);
  }

  -- The program of thread `i` makes only accesses that the history allows.
  module _ (i : ℕ) where
    abbrev pub Ok : {A : Type 0} → Prog M A → M → Words → Type 0
    Ok q m s = IsSafe history i (λ _ _ _. Unit {0}) q m s

    pub access-Ok :
        {A : Type 0} {k : ℕ → Prog M A} (m : M) (s : Words) (f : M → ℕ × M)
        → ((n : M) (t : Words)
            → Grows s t
            → IsNoted n t
            → o.change (Seen t) n (f n).1
              × (IsNoted (f n).1 (noted (f n).1 t) → Ok (k (f n).0) (f n).1 (noted (f n).1 t)))
        → Ok (act f k) m s
    access-Ok m s f h = record {
      safe = λ n t r v.
          let c = h n t r v in
          let inv : IsNoted (f n).1 (noted (f n).1 t) = record {
            current = λ r. ground (arith, ==_refl (o.obs (f n).1 r));
            holds = o.keeps (Seen t) n (f n).1 v.holds c.0;
          } in
          (noted (f n).1 t, inv, record { adds = refl; change = c.0 }, (c.1 inv).safe);
    }

    -- A read, after which more is known.
    pub read-Ok :
        {A : Type 0} {k : ℕ → Prog M A} (m : M) (s : Words) (f : M → ℕ)
        → ((n : M) (t : Words) → Grows s t → IsNoted n t → Ok (k (f n)) n t)
        → Ok (act (λ m. (f m, m)) k) m s
    read-Ok m s f h =
        access-Ok m s (λ m. (f m, m))
          λ n t r v.
            (o.same (Seen t) n, λ inv. h n (noted n t) (λ x w y. noted-Grows n t x w (r x w y)) inv)

    pub done-Ok : {A : Type 0} (a : A) (m : M) (s : Words) → Ok (ret a) m s
    done-Ok a m s = ret-IsSafe m s a (λ _ _ _. tt)

    pub then-Ok :
        {A B : Type 0} (q : Prog M A) (g : A → Prog M B) (m : M) (s : Words)
        → Ok q m s
        → ((a : A) (n : M) (t : Words) → Ok (g a) n t)
        → Ok (q >>= g) m s
    then-Ok q g m s h next = IsSafe->>= history history-IsProtocol i g m s h (λ a n t _. next a n t)

    -- Accesses that any history allows.
    pub Obeys-Ok :
        {A : Type 0} {G : M → M → Type 0} {q : Prog M A} (m : M) (s : Words)
        → ((had : ℕ → ℕ → Type 0) (n n' : M) → G n n' → o.change had n n')
        → Obeys G q
        → Ok q m s
    Obeys-Ok m s all (finish a) = done-Ok a m s
    Obeys-Ok {G = G} m s all (access {f} x t) = access-Ok m s f λ n u r v.
        (all (Seen u) n (f n).1 (x n), λ _. Obeys-Ok {G = G} (f n).1 (noted (f n).1 u) all (t n))
    Obeys-Ok m s all give_up = give_up-IsSafe m s
    Obeys-Ok m s all fail = crash-IsSafe m s

module _ {M A : Type 0} (o : Observed M) where
  abbrev Any : ℕ → A → M → Words → Type 0
  Any _ _ _ _ = Unit {0}

  -- The history that the protocol keeps is one of the run.
  record Kept (x y : System M A) (s : Words) : Type 0 where
    inv : IsNoted o y.mem s
    safe : AllSafe (history o) Any y s
    past : (r w : ℕ) → Seen s r w → Had o.obs x y r w

  Had-later : (x y z : System M A) (r w : ℕ) → Step y z → Had o.obs x y r w → Had o.obs x z r w
  Had-later x y z r w st (u, before, after, e) = (u, before, later after st, e)

  Kept-later :
      (x y z : System M A) (s : Words)
      → Reach x y
      → Step y z
      → Kept x y s
      → (t : Words) × Kept x z t × o.change (Had o.obs x y) y.mem z.mem
  Kept-later x y z s re st k =
      let (i, t, inv, notes, safe) =
        Step-Safe (history o) (history-IsProtocol o) Any y z s k.inv k.safe st in
      (
        t,
        record {
          inv = inv;
          safe = safe;
          past = λ r w h. elim (Bool-cases (w == o.obs z.mem r)) [
            | inl here ↦ (z, later re st, start, rw (eq-of-== w _ here) refl)
            | inr old ↦
                Had-later x y z r w st (k.past r w (ground (arith, old, rw notes.adds at h)))
          ];
        },
        o.mono (Seen s) (Had o.obs x y) k.past y.mem z.mem notes.change,
      )

  Reach-Kept : (x y : System M A) (s : Words) → Kept x x s → Reach x y → (t : Words) × Kept x y t
  Reach-Kept x y s k start = (s, k)
  Reach-Kept x y s k (later {t = u} re st) =
      let before = Reach-Kept x u s k re in
      let after = Kept-later x u y before.0 re st before.1 in (after.0, after.1)

  -- In a run of threads that the history allows, each access changes the memory as the values
  -- allow that the words had in the run.
  pub interleaved-change :
      (x : System M A) {y z : System M A}
      → o.inv x.mem
      → ((i : ℕ) (s : Words) → Ok o i (x.thread i) x.mem s)
      → Reach x y
      → Step y z
      → o.change (Had o.obs x y) y.mem z.mem
  interleaved-change x {y} {z} v ok re st =
      let words : Words = λ r. o.obs x.mem r ∷ [] in
      let first : Kept x x words = record {
        inv = record { current = λ r. ground (arith, ==_refl (o.obs x.mem r)); holds = v };
        safe = λ i. (ok i words).safe;
        past = λ r w h. (x, start, start, ground (arith, h, eq-of-== w (o.obs x.mem r)));
      } in
      let (u, k) = Reach-Kept x y words first re in (Kept-later x y z u re st k).2
