-- ===== src/Counter/Threads.antt =====
-- Any number of threads that count on with `getAndIncrement`, in any order of their accesses.
use mathlib.Core.Path.{subst}
use psly_algorithm.Base.{
  ℕ, zero, suc, ◌+◌, ◌%◌, ◌^◌, ◌≤◌, ◌<◌, ◌≡◌, refl, sym, false, ◌⊎◌, inl, inr, List, [], ◌∷◌,
  length, arith, ◌==◌, Bool-cases, eq-of-==, ==_refl, ltb, if◌then◌else◌,
}
use psly_algorithm.Prog.{Prog, ret, ◌>>=◌, ◌>>◌, System, Step, Reach}
use psly_algorithm.Prog.Rely.{
  Safe, AllSafe, IsSafe, IsSafe->>=, IsSafe-if, give_up-IsSafe, ret-IsSafe, Step-Safe, Reach-Safe,
}
use psly_algorithm.Counter.{
  Counter, zeroed, index, version_of, next_word, read, write_value, write_version, cas_word,
  get_and_increment,
}
use psly_algorithm.Counter.History.{current, fetched, Stood, Past, current-Stood, Past-current}
use psly_algorithm.Counter.Shared.{
  Stands, Acts, Sees, Sees-refl, fetched-Grows, Grows-trans, counter, counter-IsProtocol, Knows,
  Knows-Sees, Stood-Grows, Past-Grows,
}
use psly_algorithm.Counter.Rules.{
  Won, Won-Sees, read-IsSafe, write_value-IsSafe, write_version-IsSafe, cas_word-IsSafe,
}

-- What was read as the value of the word `w`: its number, unless the counter has another word since.
abbrev Valued : ℕ → ℕ → List ℕ → Type 0
Valued w v s = ((d : ℕ) × Stood w d s × (v ≡ d % 2 ^ 64)) ⊎ ((d : ℕ) × Past w d s)

Past-other : (w d : ℕ) (s : List ℕ) → Stood w d s → (current s == w) ≡ false → Past w d s
Past-other w d [] h n = ground (arith, h.0)
Past-other w d (x ∷ s) (inl h) n = ground (arith, h.0, ==_refl x)
Past-other w d (x ∷ s) (inr h) n = h

Stands-Valued :
    (w d : ℕ) (m : Counter) (s : List ℕ)
    → Stood w d s
    → Stands m s
    → Valued w ((m.handles (index w)).value (version_of w % 2)) s
Stands-Valued w d m s h v = elim (Bool-cases (current s == w)) [
  | inl same ↦
      let e = eq-of-== (current s) w same in
      inl (length s, rw (← e) (current-Stood s), rw (← e, ← v.word) v.value)
  | inr other ↦ inr (d, Past-other w d s h other)
]

module _ (i : ℕ) where
  Valued-Sees :
      (w v : ℕ) (m : Counter) (s : List ℕ) (n : Counter) (t : List ℕ)
      → Sees i m s n t
      → Valued w v s
      → Valued w v t
  Valued-Sees w v m s n t r (inl h) = inl (h.0, Stood-Grows i w h.0 r.grows h.1, h.2)
  Valued-Sees w v m s n t r (inr h) = inr (h.0, Past-Grows i w h.0 r.grows h.1)

  Valued-same :
      (w v : ℕ) (m : Counter) (s : List ℕ)
      → Stands m s
      → w ≡ m.word
      → Valued w v s
      → (d : ℕ) × Stood w d s × (v ≡ d % 2 ^ 64)
  Valued-same w v m s h e (inl x) = x
  Valued-same w v m s h e (inr x) = absurd (Past-current x.0 s h.history (rw (← h.word, ← e) x.1))

  module _ (lt : i < 2 ^ 16) (k : ℕ) (answers : List ℕ) where
    abbrev Answered : ℕ → Counter → List ℕ → Type 0
    Answered a n t = Knows i k (a ∷ answers) n t

    -- The store of the version after the swap.
    finish-IsSafe :
        (x d : ℕ) (m : Counter) (s : List ℕ)
        → x ≡ d % 2 ^ 64
        → Won i k (d % 2 ^ 32 ∷ answers) m s
        → IsSafe counter i Answered
            (do
              version ← read (λ m. (m.handles i).version)
              write_version i ((version + 1) % 2 ^ 16)
              ret (x % 2 ^ 32))
            m
            s
    finish-IsSafe x d m s e h =
        let all = d % 2 ^ 32 ∷ answers in
        read-IsSafe i m s (λ m. (m.handles i).version)
          λ m1 s1 r1 v1.
            write_version-IsSafe i m1 s1 k all (m1.handles i).version
              (Won-Sees i k all m s m1 s1 r1 h) refl
              λ m2 s2 k2. ret-IsSafe m2 s2 (x % 2 ^ 32) λ m3 s3 r3.
                let same : x % 2 ^ 32 ≡ d % 2 ^ 32 = omega (arith, e) in
                rw same (Knows-Sees i k all m2 s2 m3 s3 r3 k2)

    -- The rest of a round, once `Value` was read twice as `w`.
    swap-IsSafe :
        (rest : Prog Counter ℕ) (w x d : ℕ) (m : Counter) (s : List ℕ)
        → Stood w d s
        → x ≡ d % 2 ^ 64
        → Knows i (suc k) answers m s
        → ((n : Counter) (t : List ℕ)
            → Knows i (suc k) answers n t
            → IsSafe counter i Answered rest n t)
        → IsSafe counter i Answered
            (do
              version ← read (λ m. (m.handles i).version)
              write_value i ((version + 1) % 2) ((x + 1) % 2 ^ 64)
              version' ← read (λ m. (m.handles i).version)
              won ← cas_word w (next_word i version')
              if won == 1
                  then (do
                    version'' ← read (λ m. (m.handles i).version)
                    write_version i ((version'' + 1) % 2 ^ 16)
                    ret (x % 2 ^ 32))
                  else rest)
            m
            s
    swap-IsSafe rest w x d m s stood e h again =
        read-IsSafe i m s (λ m. (m.handles i).version)
          λ m1 s1 r1 v1.
            let u = (m1.handles i).version in
            let k1 = Knows-Sees i (suc k) answers m s m1 s1 r1 h in
            write_value-IsSafe i m1 s1 (suc k) answers u ((x + 1) % 2 ^ 64) k1 refl
              λ m2 s2 g2 k2 e2 wrote.
                read-IsSafe i m2 s2 (λ m. (m.handles i).version)
                  λ m3 s3 r3 v3.
                    let k3 = Knows-Sees i (suc k) answers m2 s2 m3 s3 r3 k2 in
                    let g3 = Grows-trans i (Grows-trans i r1.grows g2) r3.grows in
                    cas_word-IsSafe i m3 s3 k answers w d (m3.handles i).version lt k3 refl
                      (rw (r3.handle, e2, wrote, e) (omega arith)) (Stood-Grows i w d g3 stood)
                      (λ m4 s4 k4. finish-IsSafe x d m4 s4 e k4)
                      (λ m4 s4 r4. again m4 s4 (Knows-Sees i (suc k) answers m3 s3 m4 s4 r4 k3))

    get_and_increment-IsSafe :
        (f : ℕ) (m : Counter) (s : List ℕ)
        → Knows i (suc k) answers m s
        → IsSafe counter i Answered (get_and_increment f i) m s
    unfolding get_and_increment
    get_and_increment-IsSafe zero m s h = give_up-IsSafe m s
    get_and_increment-IsSafe (suc f) m s h =
        read-IsSafe i m s (λ m. m.word)
          λ m1 s1 r1 v1.
            let w = m1.word in
            let k1 = Knows-Sees i (suc k) answers m s m1 s1 r1 h in
            let stood : Stood w (length s1) s1 = rw v1.word (current-Stood s1) in
            read-IsSafe i m1 s1 (λ m. (m.handles (index w)).value (version_of w % 2))
              λ m2 s2 r2 v2.
                let x = (m2.handles (index w)).value (version_of w % 2) in
                let k2 = Knows-Sees i (suc k) answers m1 s1 m2 s2 r2 k1 in
                let stood2 = Stood-Grows i w (length s1) r2.grows stood in
                let d2 = Stands-Valued w (length s1) m2 s2 stood2 v2 in
                read-IsSafe i m2 s2 (λ m. m.word)
                  λ m3 s3 r3 v3.
                    let k3 = Knows-Sees i (suc k) answers m2 s2 m3 s3 r3 k2 in
                    let d3 = Valued-Sees w x m2 s2 m3 s3 r3 d2 in
                    IsSafe-if m3 s3 (w == m3.word)
                      (λ same.
                        let d = Valued-same w x m3 s3 v3 (eq-of-== w m3.word same) d3 in
                        swap-IsSafe (get_and_increment f i) w x d.0 m3 s3 d.1 d.2 k3
                          (get_and_increment-IsSafe f))
                      (λ _. get_and_increment-IsSafe f m3 s3 k3)

-- A thread that makes `calls` calls; its answers, the last first.
unfoldable pub increments : ℕ → ℕ → ℕ → List ℕ → Prog Counter (List ℕ)
increments fuel thread zero answers = ret answers
increments fuel thread (suc calls) answers = do
  answer ← get_and_increment fuel thread
  increments fuel thread calls (answer ∷ answers)

-- Threads with numbers below `n`; thread `i` makes `calls i` calls.
abbrev pub counting : ℕ → ℕ → (ℕ → ℕ) → Counter → System Counter (List ℕ)
counting fuel n calls m = record {
  mem = m;
  thread = λ i. if ltb i n then increments fuel i (calls i) [] else ret [];
}

increments-IsSafe :
    (i fuel calls : ℕ) (answers : List ℕ) (m : Counter) (s : List ℕ)
    → i < 2 ^ 16
    → Knows i calls answers m s
    → IsSafe counter i (λ a n t. a ≡ fetched i t) (increments fuel i calls answers) m s
unfolding increments
increments-IsSafe i fuel zero answers m s lt h =
    ret-IsSafe m s answers (λ n t r. (Knows-Sees i 0 answers m s n t r h).answered)
increments-IsSafe i fuel (suc calls) answers m s lt h =
    IsSafe->>= counter counter-IsProtocol i _ m s
      (get_and_increment-IsSafe i lt calls answers fuel m s h)
      (λ a n t k. increments-IsSafe i fuel calls (a ∷ answers) n t lt k)

zeroed-Stands : Stands zeroed []
zeroed-Stands = record { history = tt; word = refl; value = refl }

zeroed-Knows : (i calls : ℕ) → calls < 2 ^ 16 → Knows i calls [] zeroed []
zeroed-Knows i calls lt = record { version = refl; room = omega (arith, lt); answered = refl }

abbrev Ended : ℕ → List ℕ → Counter → List ℕ → Type 0
Ended i answers m s = answers ≡ fetched i s

counting-Safe :
    (fuel n : ℕ) (calls : ℕ → ℕ)
    → n ≤ 2 ^ 16
    → ((i : ℕ) → calls i < 2 ^ 16)
    → AllSafe counter Ended (counting fuel n calls zeroed) []
counting-Safe fuel n calls le few i =
    (IsSafe-if {p = counter} {i = i} {post = Ended i} zeroed [] (ltb i n)
      (λ lt.
        increments-IsSafe i fuel (calls i) [] zeroed [] (ground arith)
          (zeroed-Knows i (calls i) (few i)))
      (λ _. ret-IsSafe zeroed [] [] (λ m s r. sym (fetched-Grows i r.grows)))).safe

-- In every interleaving of at most 2^16 threads, each of which makes fewer than 2^16 calls of
-- `getAndIncrement`, from the zero that static data has: between two accesses there is a history
-- of words at whose length, modulo 2^64, the counter stands, one access adds at most one word to
-- it, one that names its own thread, and writes to no other handle, and a thread that has made its
-- calls has fetched by them just the numbers, modulo 2^32, at which its words stand in the history.
pub interleaved-Stands :
    (fuel n : ℕ) (calls : ℕ → ℕ) {y z : System Counter (List ℕ)}
    → n ≤ 2 ^ 16
    → ((i : ℕ) → calls i < 2 ^ 16)
    → Reach (counting fuel n calls zeroed) y
    → Step y z
    → (s : List ℕ) × Stands y.mem s
      × ((i : ℕ) (answers : List ℕ) → y.thread i ≡ ret answers → answers ≡ fetched i s)
      × (i : ℕ) × (t : List ℕ) × Stands z.mem t
      × Acts i y.mem s z.mem t
interleaved-Stands fuel n calls {y} {z} le few r st =
    let p = counter-IsProtocol in
    let b =
      Reach-Safe counter p Ended (counting fuel n calls zeroed) y [] zeroed-Stands
        (counting-Safe fuel n calls le few) r in
    let a = Step-Safe counter p Ended y z b.0 b.1 b.2 st in
    (
      b.0,
      b.1,
      λ i answers e.
          subst (λ (q : Prog Counter (List ℕ)). Safe counter i (Ended i) q y.mem b.0) e (b.2 i)
            y.mem b.0 (Sees-refl i y.mem b.0),
      a.0,
      a.1,
      a.2,
      a.3,
    )
