-- ===== src/Prog.antt =====
-- Programs over shared memory, one atomic access after another, and the two ways to run them:
-- alone, or interleaved with any number of other threads.
pub mod Advance
pub mod Rely
pub mod History
use mathlib.Core.Path.{subst}
use psly_algorithm.Base.{
  ℕ, ◌≡◌, refl, Bool, true, false, inl, inr, ◌==◌, Bool-cases, if◌then◌else◌, update,
}

-- `act f k` makes the access `f`, which reads and changes the memory in one step, and goes on with
-- the word that it returns. A loop runs on fuel; a null pointer that is followed is a crash.
pub data Prog (M A : Type 0) : Type 0 where
  ret : A → Prog M A
  act : (M → ℕ × M) → (ℕ → Prog M A) → Prog M A
  out_of_fuel : Prog M A
  crash : Prog M A

infixl 5 ◌>>=◌ ◌>>◌
abbrev pub ◌>>=◌ : {M A B : Type 0} → Prog M A → (A → Prog M B) → Prog M B
ret a >>= g = g a
act f k >>= g = act f (λ w. k w >>= g)
out_of_fuel >>= g = out_of_fuel
crash >>= g = crash

abbrev pub ◌>>◌ : {M A B : Type 0} → Prog M A → Prog M B → Prog M B
p >> q = p >>= λ _. q

pub data Outcome (M A : Type 0) : Type 0 where
  done : A → M → Outcome M A
  stuck : Outcome M A
  crashed : Outcome M A

abbrev pub and_then : {M A B : Type 0} → Outcome M A → (A → M → Outcome M B) → Outcome M B
and_then (done a m) g = g a m
and_then stuck g = stuck
and_then crashed g = crashed

-- One thread alone.
abbrev pub run : {M A : Type 0} → Prog M A → M → Outcome M A
run (ret a) m = done a m
run (act f k) m = run (k (f m).0) (f m).1
run out_of_fuel m = stuck
run crash m = crashed

pub run->>= :
    {M A B : Type 0} (p : Prog M A) (g : A → Prog M B) (m : M)
    → run (p >>= g) m ≡ and_then (run p m) (λ a m'. run (g a) m')
run->>= (ret a) g m = refl
run->>= (act f k) g m = run->>= (k (f m).0) g (f m).1
run->>= out_of_fuel g m = refl
run->>= crash g m = refl

-- The first branch is taken.
pub run-then :
    {M A : Type 0} (b : Bool) (p q : Prog M A) (m : M) {o : Outcome M A}
    → b ≡ true
    → run p m ≡ o
    → run (if b then p else q) m ≡ o
run-then true p q m e h = h
run-then false p q m e h = cc

-- The second branch is taken.
pub run-else :
    {M A : Type 0} (b : Bool) (p q : Prog M A) (m : M) {o : Outcome M A}
    → b ≡ false
    → run q m ≡ o
    → run (if b then p else q) m ≡ o
run-else true p q m e h = cc
run-else false p q m e h = h

-- Any number of threads over one memory: thread `i` runs the program `thread i`.
pub record System (M A : Type 0) : Type 0 where
  pub mem : M
  pub thread : ℕ → Prog M A

-- One atomic access of one thread.
pub data Step {M A : Type 0} (s : System M A) : System M A → Type 0 where
  step :
      (i : ℕ) {f : M → ℕ × M} {k : ℕ → Prog M A}
      → s.thread i ≡ act f k
      → Step s (record { mem = (f s.mem).1; thread = update s.thread i (k (f s.mem).0) })

pub data Reach {M A : Type 0} (s : System M A) : System M A → Type 0 where
  start : Reach s s
  later : {t u : System M A} → Reach s t → Step t u → Reach s u

-- Every access of the program, whatever the other threads do in between, changes the memory only
-- as `G` allows.
pub data Obeys {M A : Type 0} (G : M → M → Type 0) : Prog M A → Type 0 where
  finish : (a : A) → Obeys G (ret a)
  access :
      {f : M → ℕ × M} {k : ℕ → Prog M A}
      → ((m : M) → G m (f m).1)
      → ((m : M) → Obeys G (k (f m).0))
      → Obeys G (act f k)
  give_up : Obeys G out_of_fuel
  fail : Obeys G crash

-- The memory at the end of a run, and a run without an end.
abbrev Ends : {M A : Type 0} → (M → M → Type 0) → M → Outcome M A → Type 0
Ends G m (done a m') = G m m'
Ends G m stuck = ⊥
Ends G m crashed = ⊥

abbrev Failed : {M A : Type 0} → Outcome M A → Type 0
Failed (done a m) = ⊥
Failed stuck = Unit
Failed crashed = Unit

module _ {M : Type 0} {G : M → M → Type 0} where
  pub Obeys->>= :
      {A B : Type 0} {p : Prog M A} (g : A → Prog M B)
      → Obeys G p
      → ((a : A) → Obeys G (g a))
      → Obeys G (p >>= g)
  Obeys->>= g (finish a) next = next a
  Obeys->>= g (access h t) next = access h (λ m. Obeys->>= g (t m) next)
  Obeys->>= g give_up next = give_up
  Obeys->>= g fail next = fail

  pub Obeys-if :
      {A : Type 0} (b : Bool) {p q : Prog M A}
      → Obeys G p
      → Obeys G q
      → Obeys G (if b then p else q)
  Obeys-if true h k = h
  Obeys-if false h k = k

  -- The same where the first branch needs the test.
  pub Obeys-dif :
      {A : Type 0} (b : Bool) {p q : Prog M A}
      → (b ≡ true → Obeys G p)
      → Obeys G q
      → Obeys G (if b then p else q)
  Obeys-dif true h k = h refl
  Obeys-dif false h k = k

  pub Obeys-mono :
      {A : Type 0} {H : M → M → Type 0} {p : Prog M A}
      → ((m m' : M) → G m m' → H m m')
      → Obeys G p
      → Obeys H p
  Obeys-mono weaken (finish a) = finish a
  Obeys-mono weaken (access h t) = access (λ m. weaken m _ (h m)) (λ m. Obeys-mono weaken (t m))
  Obeys-mono weaken give_up = give_up
  Obeys-mono weaken fail = fail

  -- A run alone of a program whose accesses obey an order changes the memory as the order allows.
  pub run-Obeys :
      {A : Type 0} {p : Prog M A} {a : A} {m m' : M}
      → ((n : M) → G n n)
      → ((n o q : M) → G n o → G o q → G n q)
      → Obeys G p
      → run p m ≡ done a m'
      → G m m'
  run-Obeys {m} r t (finish a) e = subst (λ o. Ends G m o) e (r m)
  run-Obeys {m} r t (access {f} h k) e = t m (f m).1 _ (h m) (run-Obeys r t (k m) e)
  run-Obeys r t give_up e = absurd (subst Failed e tt)
  run-Obeys r t fail e = absurd (subst Failed e tt)

  Obeys-access :
      {A : Type 0} {p : Prog M A} {f : M → ℕ × M} {k : ℕ → Prog M A} (m : M)
      → p ≡ act f k
      → Obeys G p
      → G m (f m).1 × Obeys G (k (f m).0)
  Obeys-access {f} {k} m e h = go (subst (Obeys G) e h)
    where
      go : Obeys G (act f k) → G m (f m).1 × Obeys G (k (f m).0)
      go (access h t) = (h m, t m)

module _ {M : Type 0} (G : M → M → Type 0) where
  abbrev pub AllObey : {A : Type 0} → System M A → Type 0
  AllObey s = (i : ℕ) → Obeys G (s.thread i)

  pub Step-Obeys :
      {A : Type 0} {s t : System M A} → AllObey s → Step s t → G s.mem t.mem × AllObey t
  Step-Obeys {s} all (step i e) =
      let own = Obeys-access s.mem e (all i) in
      (
        own.0,
        λ j. elim (Bool-cases (j == i)) [ inl here ↦ rw here own.1 | inr other ↦ rw other (all j) ],
      )

  pub Reach-Obeys : {A : Type 0} {s t : System M A} → AllObey s → Reach s t → AllObey t
  Reach-Obeys all start = all
  Reach-Obeys all (later r st) = (Step-Obeys (Reach-Obeys all r) st).1
