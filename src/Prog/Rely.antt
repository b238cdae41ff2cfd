-- ===== src/Prog/Rely.antt =====
-- Any number of threads that rely on one another: beside the memory stands a value that no thread
-- stores, such as the list of all nodes that were ever linked.
use mathlib.Core.Path.{subst}
use psly_algorithm.Base.{
  ℕ, ◌≡◌, refl, true, false, inl, inr, ◌==◌, Bool, Bool-cases, if◌then◌else◌, eq-of-==,
}
use psly_algorithm.Prog.{
  Prog, ret, act, out_of_fuel, crash, ◌>>=◌, System, Step, step, Reach, start, later, Obeys, finish,
  access, give_up, fail,
}

-- `inv` holds between two accesses; `may i` is what one access of thread `i` does; `sees i` is what
-- any number of accesses of the others do.
pub record Protocol (M S : Type 0) : Type 1 where
  pub inv : M → S → Type 0
  pub may : ℕ → M → S → M → S → Type 0
  pub sees : ℕ → M → S → M → S → Type 0

-- What makes a protocol sound.
pub record IsProtocol {M S : Type 0} (p : Protocol M S) : Type 0 where
  pub sees_refl : (i : ℕ) (m : M) (s : S) → p.sees i m s m s
  pub sees_trans :
      (i : ℕ) (m : M) (s : S) (m' : M) (s' : S) (m'' : M) (s'' : S)
      → p.sees i m s m' s'
      → p.sees i m' s' m'' s''
      → p.sees i m s m'' s''
  pub sees_may :
      (i j : ℕ) (m : M) (s : S) (m' : M) (s' : S)
      → (j == i) ≡ false
      → p.inv m s
      → p.may i m s m' s'
      → p.sees j m s m' s'

module _ {M S : Type 0} (p : Protocol M S) (i : ℕ) where
  -- Every access of the program keeps the invariant and is one that the thread may make, whatever
  -- the others do before it.
  abbrev pub Safe : {A : Type 0} → (A → M → S → Type 0) → Prog M A → M → S → Type 0
  Safe post (ret a) m s = (m' : M) (s' : S) → p.sees i m s m' s' → post a m' s'
  Safe post (act f k) m s =
      (m' : M) (s' : S)
      → p.sees i m s m' s'
      → p.inv m' s'
      → (t : S) × p.inv (f m').1 t × p.may i m' s' (f m').1 t × Safe post (k (f m').0) (f m').1 t
  Safe post out_of_fuel m s = Unit
  Safe post crash m s = Unit

-- The same as a record, from which the program can be read off.
pub record IsSafe {M S A : Type 0} (p : Protocol M S) (i : ℕ) (post : A → M → S → Type 0)
    (q : Prog M A) (m : M) (s : S) : Type 0 where
  pub safe : Safe p i post q m s

-- Every thread is safe, and thread `i` ends as `post i` says.
abbrev pub AllSafe :
    {M S A : Type 0} → Protocol M S → (ℕ → A → M → S → Type 0) → System M A → S → Type 0
AllSafe p post y s = (i : ℕ) → Safe p i (post i) (y.thread i) y.mem s

module _ {M S : Type 0} (p : Protocol M S) (h : IsProtocol p) where
  pub Safe-sees :
      (i : ℕ) {A : Type 0} (post : A → M → S → Type 0) (q : Prog M A) (m : M) (s : S) (m' : M)
      (s' : S)
      → p.sees i m s m' s'
      → Safe p i post q m s
      → Safe p i post q m' s'
  Safe-sees i post (ret a) m s m' s' r safe = λ n t r'. safe n t (h.sees_trans i m s m' s' n t r r')
  Safe-sees i post (act f k) m s m' s' r safe =
      λ n t r'. safe n t (h.sees_trans i m s m' s' n t r r')
  Safe-sees i post out_of_fuel m s m' s' r safe = tt
  Safe-sees i post crash m s m' s' r safe = tt

  pub Safe->>= :
      (i : ℕ) {A B : Type 0} (mid : A → M → S → Type 0) (post : B → M → S → Type 0) (q : Prog M A)
      (g : A → Prog M B) (m : M) (s : S)
      → Safe p i mid q m s
      → ((a : A) (m' : M) (s' : S) → mid a m' s' → Safe p i post (g a) m' s')
      → Safe p i post (q >>= g) m s
  Safe->>= i mid post (ret a) g m s safe next = next a m s (safe m s (h.sees_refl i m s))
  Safe->>= i mid post (act f k) g m s safe next = λ m' s' r v.
      let own = safe m' s' r v in
      (own.0, own.1, own.2, Safe->>= i mid post (k (f m').0) g (f m').1 own.0 own.3 next)
  Safe->>= i mid post out_of_fuel g m s safe next = tt
  Safe->>= i mid post crash g m s safe next = tt

  -- Accesses that keep `Q`, a relation that the protocol never looks at.
  pub Safe-Obeys :
      (i : ℕ) {A : Type 0} {Q : M → M → Type 0} {q : Prog M A} (o : M) (u : S) (m : M) (s : S)
      → ((n n' : M) (t : S)
          → Q n n'
          → p.inv n t
          → p.inv n' t × p.may i n t n' t × p.sees i n t n' t)
      → p.sees i o u m s
      → Obeys Q q
      → Safe p i (λ _ m' s'. p.sees i o u m' s') q m s
  Safe-Obeys i o u m s quiet r (finish a) = λ m' s' r'. h.sees_trans i o u m s m' s' r r'
  Safe-Obeys i {Q} o u m s quiet r (access {f} x t) = λ m' s' r' v.
      let own = quiet m' (f m').1 s' (x m') v in
      let far = h.sees_trans i o u m' s' (f m').1 s' (h.sees_trans i o u m s m' s' r r') own.2 in
      (s', own.0, own.1, Safe-Obeys i {Q = Q} o u (f m').1 s' quiet far (t m'))
  Safe-Obeys i o u m s quiet r give_up = tt
  Safe-Obeys i o u m s quiet r fail = tt

  -- One step of the system keeps the invariant and the safety of every thread.
  pub Step-Safe :
      {A : Type 0} (post : ℕ → A → M → S → Type 0) (y z : System M A) (s : S)
      → p.inv y.mem s
      → AllSafe p post y s
      → Step y z
      → (i : ℕ) × (t : S) × p.inv z.mem t × p.may i y.mem s z.mem t × AllSafe p post z t
  Step-Safe {A} post y z s v all (step i {f} {k} e) =
      let own =
        subst (λ (q : Prog M A). Safe p i (post i) q y.mem s) e (all i) y.mem s
          (h.sees_refl i y.mem s) v in
      (
        i,
        own.0,
        own.1,
        own.2,
        λ j. elim (Bool-cases (j == i)) [
          | inl here ↦ rw (here, eq-of-== j i here) own.3
          | inr other ↦ rw other (
              Safe-sees j (post j) (y.thread j) y.mem s (f y.mem).1 own.0
                (h.sees_may i j y.mem s (f y.mem).1 own.0 other v own.2) (all j))
        ],
      )

  pub Reach-Safe :
      {A : Type 0} (post : ℕ → A → M → S → Type 0) (y z : System M A) (s : S)
      → p.inv y.mem s
      → AllSafe p post y s
      → Reach y z
      → (t : S) × p.inv z.mem t × AllSafe p post z t
  Reach-Safe post y z s v all start = (s, v, all)
  Reach-Safe post y z s v all (later {t = u} r st) =
      let before = Reach-Safe post y u s v all r in
      let after = Step-Safe post u z before.0 before.1 before.2 st in (after.1, after.2, after.4)

  pub IsSafe->>= :
      (i : ℕ) {A B : Type 0} {mid : A → M → S → Type 0} {post : B → M → S → Type 0} {q : Prog M A}
      (g : A → Prog M B) (m : M) (s : S)
      → IsSafe p i mid q m s
      → ((a : A) (m' : M) (s' : S) → mid a m' s' → IsSafe p i post (g a) m' s')
      → IsSafe p i post (q >>= g) m s
  IsSafe->>= i {mid} {post} {q} g m s x next = record {
    safe = Safe->>= i mid post q g m s x.safe (λ a m' s' y. (next a m' s' y).safe);
  }

-- A weaker end.
Safe-post :
    {M S A : Type 0} (p : Protocol M S) (i : ℕ) (mid post : A → M → S → Type 0) (q : Prog M A)
    (m : M) (s : S)
    → ((a : A) (m' : M) (s' : S) → mid a m' s' → post a m' s')
    → Safe p i mid q m s
    → Safe p i post q m s
Safe-post p i mid post (ret a) m s h x = λ m' s' r. h a m' s' (x m' s' r)
Safe-post p i mid post (act f k) m s h x = λ m' s' r v.
    let own = x m' s' r v in
    (own.0, own.1, own.2, Safe-post p i mid post (k (f m').0) (f m').1 own.0 h own.3)
Safe-post p i mid post out_of_fuel m s h x = tt
Safe-post p i mid post crash m s h x = tt

pub IsSafe-post :
    {M S A : Type 0} (p : Protocol M S) (i : ℕ) {mid post : A → M → S → Type 0} (q : Prog M A)
    (m : M) (s : S)
    → ((a : A) (m' : M) (s' : S) → mid a m' s' → post a m' s')
    → IsSafe p i mid q m s
    → IsSafe p i post q m s
IsSafe-post p i {mid} {post} q m s h x = record { safe = Safe-post p i mid post q m s h x.safe }

module _ {M S A : Type 0} {p : Protocol M S} {i : ℕ} {post : A → M → S → Type 0} (m : M)
    (s : S) where
  pub IsSafe-if :
      (b : Bool) {q r : Prog M A}
      → (b ≡ true → IsSafe p i post q m s)
      → (b ≡ false → IsSafe p i post r m s)
      → IsSafe p i post (if b then q else r) m s
  IsSafe-if true h k = h refl
  IsSafe-if false h k = k refl

  pub give_up-IsSafe : IsSafe p i post out_of_fuel m s
  give_up-IsSafe = record { safe = tt }

  pub crash-IsSafe : IsSafe p i post crash m s
  crash-IsSafe = record { safe = tt }

  pub ret-IsSafe :
      (a : A)
      → ((m' : M) (s' : S) → p.sees i m s m' s' → post a m' s')
      → IsSafe p i post (ret a) m s
  ret-IsSafe a h = record { safe = h }
