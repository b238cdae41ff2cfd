-- ===== src/Pool/Growing/Threads.antt =====
-- Any number of threads that call `get_Record` and `return_Record` of
-- cfilesforhazardpointer/hazard_long2.c, in any order of their accesses.
use mathlib.Core.Path.{subst}
use psly_algorithm.Base.{
  ℕ, zero, suc, ◌+◌, ◌/◌, ◌≤◌, ◌<◌, ◌≡◌, refl, true, Option, none, some, inl, inr, arith, ◌==◌,
  Bool-cases, eq-of-==, ==_refl, if◌then◌else◌, update,
}
use psly_algorithm.Prog.{Prog, ret, ◌>>=◌, ◌>>◌, System, Step, Reach}
use psly_algorithm.Prog.Rely.{
  Safe, IsSafe, IsSafe->>=, IsSafe-if, IsSafe-post, give_up-IsSafe, ret-IsSafe, Step-Safe,
  Reach-Safe,
}
use psly_algorithm.Pool.{Layout, array_len, array_num, return_record}
use psly_algorithm.Pool.Worker.{Call, get, give}
use psly_algorithm.Pool.Worker.Tags.{return_record-Obeys}
use psly_algorithm.Pool.Growing.{
  Growing, in_pool, search, read_arrays, is_missing, publish, with_array, count_array, grow,
  get_record,
}
use psly_algorithm.Pool.Growing.Fits.{Within, search-Fits, Obeys-Fits}
use psly_algorithm.Pool.Growing.Shared.{
  IsCounted, Grown, Grown-refl, growing, growing-IsProtocol, in_pool-IsSafe,
}

-- A record of a counted array, or none, since there is no room for one more array.
abbrev pub Answered : Layout → Option ℕ → Growing → Type 0
Answered l none m = array_num l ≤ m.arrays
Answered l (some r) m = r / array_len l < m.arrays

module _ (l : Layout) (i : ℕ) where
  abbrev Ends : {A : Type 0} → (A → Growing → Unit {0} → Type 0) → Prog Growing A → Growing → Type 0
  Ends post q m = IsSafe (growing l) i post q m tt

  module _ {A : Type 0} {post : A → Growing → Unit {0} → Type 0} {k : ℕ → Prog Growing A}
      (m : Growing) where
    read_arrays-IsSafe :
        ((n : Growing) → Grown l m n → IsCounted l n → Ends post (k n.arrays) n)
        → Ends post (read_arrays >>= k) m
    read_arrays-IsSafe next = record {
      safe = λ n t r v. (tt, v, Grown-refl l n, (next n r v).safe);
    }

    is_missing-IsSafe :
        (a : ℕ)
        → ((n : Growing) → n.present a ≡ true → Ends post (k 0) n)
        → ((n : Growing) → Ends post (k 1) n)
        → Ends post (is_missing a >>= k) m
    is_missing-IsSafe a there missing = record {
      safe = λ n t r v. elim (Bool-cases (n.present a)) [
        | inl here ↦ rw here (tt, v, Grown-refl l n, (there n here).safe)
        | inr gone ↦ rw gone (tt, v, Grown-refl l n, (missing n).safe)
      ];
    }

    publish-IsSafe :
        (a : ℕ)
        → ((n : Growing) (w : ℕ) → n.present a ≡ true → Ends post (k w) n)
        → Ends post (publish l a >>= k) m
    publish-IsSafe a next = record {
      safe = λ n t r v. elim (Bool-cases (n.present a)) [
        | inl here ↦ rw here (tt, v, Grown-refl l n, (next n 0 here).safe)
        | inr gone ↦
            let o : Growing = record n {
              pool = with_array l n.pool a;
              present = update n.present a true;
            } in
            rw gone (
              tt,
              record {
                some_array = v.some_array;
                room = v.room;
                here = λ b lt. ground (arith, v.here b lt, eq-of-== b a);
              },
              record {
                arrays = omega arith;
                present = λ b h. ground (arith, h, eq-of-== b a);
                selves = λ b h. ground (arith, h, gone, eq-of-== (b / array_len l) a);
              },
              (next o 1 (rw (==_refl a) refl)).safe,
            )
      ];
    }

    count_array-IsSafe :
        (a : ℕ)
        → a < array_num l
        → m.present a ≡ true
        → ((n : Growing) (w : ℕ) → Ends post (k w) n)
        → Ends post (count_array a >>= k) m
    count_array-IsSafe a lt here next = record {
      safe = λ n t r v. elim (Bool-cases (n.arrays == a)) [
        | inl same ↦
            let o : Growing = record n { arrays = a + 1 } in
            rw same (
              tt,
              record {
                some_array = omega arith;
                room = omega (arith, lt);
                here = λ b lt'. elim (Bool-cases (b == a)) [
                  | inl last ↦ rw (eq-of-== b a last) (r.present a here)
                  | inr other ↦
                      v.here b (ground (arith, other, lt', eq-of-== n.arrays a same, ==_refl a))
                ];
              },
              record {
                arrays = omega (arith, eq-of-== n.arrays a same);
                present = λ b h. h;
                selves = λ b h. refl;
              },
              (next o 1).safe,
            )
        | inr other ↦ rw other (tt, v, Grown-refl l n, (next n 0).safe)
      ];
    }

  grow-IsSafe : (a : ℕ) (m : Growing) → a < array_num l → Ends (λ _ _ _. Unit {0}) (grow l a) m
  unfolding grow
  grow-IsSafe a m lt =
      let done : (n : Growing) → Ends (λ _ _ _. Unit {0}) (ret tt) n =
        λ n. ret-IsSafe n tt tt (λ o t r. tt) in
      read_arrays-IsSafe m λ n r v.
        let count : (o : Growing)
            → o.present a ≡ true
            → Ends (λ _ _ _. Unit {0})
                (read_arrays >>= λ later. if later == a then (do count_array a; ret tt) else ret tt)
                o =
          λ o here. read_arrays-IsSafe o λ o' r' v'.
            IsSafe-if o' tt (o'.arrays == a)
              (λ _. count_array-IsSafe o' a lt (r'.present a here) (λ o'' w. done o''))
              (λ _. done o') in
        IsSafe-if n tt (n.arrays == a)
          (λ _. is_missing-IsSafe n a count (λ o. publish-IsSafe o a (λ o' w here. count o' here)))
          (λ _. done n)

  Answered-Grown : (o : Option ℕ) (m n : Growing) → Grown l m n → Answered l o m → Answered l o n
  Answered-Grown none m n r h = omega (arith, r.arrays, h)
  Answered-Grown (some x) m n r h = omega (arith, r.arrays, h)

  -- The end of a round of `get_Record`, in which `n` arrays were searched.
  found-IsSafe :
      (rest : Prog Growing (Option ℕ)) (o : Option ℕ) (n m : Growing)
      → IsCounted l n
      → Within l n.arrays o
      → Grown l n m
      → ((m' : Growing) → Ends (λ o' m'' _. Answered l o' m'') rest m')
      → Ends
          (λ o' m' _. Answered l o' m')
          (elim o [
            | some r ↦ ret (some r)
            | none ↦ if n.arrays == array_num l then ret none else (do grow l n.arrays; rest)
          ])
          m
  found-IsSafe rest none n m v h g next =
      IsSafe-if m tt (n.arrays == array_num l)
        (λ full. ret-IsSafe m tt none (λ m' t r.
          Answered-Grown none m m' r
            (omega (arith, eq-of-== n.arrays (array_num l) full, g.arrays))))
        (λ more.
          IsSafe->>= (growing l) (growing-IsProtocol l) i _ m tt
            (grow-IsSafe n.arrays m (ground (arith, more, v.room, ==_refl (array_num l))))
            (λ _ m' t _. next m'))
  found-IsSafe rest (some r) n m v h g next =
      ret-IsSafe m tt (some r)
        (λ m' t r'. Answered-Grown (some r) m m' r' (omega (arith, h, g.arrays)))

  get_record-IsSafe :
      (fuel rounds : ℕ) (m : Growing) → Ends (λ o n _. Answered l o n) (get_record l fuel rounds) m
  unfolding get_record
  get_record-IsSafe fuel zero m = give_up-IsSafe m tt
  get_record-IsSafe fuel (suc rounds) m = read_arrays-IsSafe m λ n r v.
      IsSafe->>= (growing l) (growing-IsProtocol l) i _ n tt
        (in_pool-IsSafe l i (Within l n.arrays) (search l fuel n.arrays) n tt
          (search-Fits l n.arrays fuel v.some_array))
        (λ o n' t h.
          found-IsSafe (get_record l fuel rounds) o n n' v h.0 h.1 (get_record-IsSafe fuel rounds))

-- One call of a thread.
unfoldable pub perform : Layout → ℕ → ℕ → Call → Prog Growing (Option ℕ)
perform l fuel rounds get = get_record l fuel rounds
perform l fuel rounds (give r) = in_pool (return_record l fuel r) >> ret none

-- Any number of threads, the one with number `i` for the call `calls i`.
abbrev pub calling : Layout → ℕ → ℕ → (ℕ → Call) → Growing → System Growing (Option ℕ)
calling l fuel rounds calls m = record { mem = m; thread = λ i. perform l fuel rounds (calls i) }

module _ (l : Layout) (fuel rounds : ℕ) (calls : ℕ → Call) where
  abbrev Ended : ℕ → Option ℕ → Growing → Unit {0} → Type 0
  Ended i o m s = calls i ≡ get → Answered l o m

  perform-IsSafe :
      (i : ℕ) (c : Call) (m : Growing)
      → IsSafe (growing l) i (λ o n _. c ≡ get → Answered l o n) (perform l fuel rounds c) m tt
  unfolding perform
  perform-IsSafe i get m =
      IsSafe-post (growing l) i (get_record l fuel rounds) m tt (λ o n t h _. h)
        (get_record-IsSafe l i fuel rounds m)
  perform-IsSafe i (give r) m =
      IsSafe->>= (growing l) (growing-IsProtocol l) i _ m tt
        (in_pool-IsSafe l i (λ _. Unit {0}) (return_record l fuel r) m tt
          (Obeys-Fits l (λ _. Unit {0}) (return_record-Obeys l (λ _. Unit {0}) fuel r tt)))
        (λ _ n t _. ret-IsSafe n tt none (λ o s r' e. cc))

-- In every interleaving of any number of threads, each of which makes one call of `get_Record` or
-- of `return_Record` on the growing pool, from a pool where every array that is counted is there,
-- at least one is counted and no more than there is room for: this stays so after each access; an
-- access takes no array away, lowers no count and gives no record of an array that is there
-- another `self`; and a call of `get_Record` that ends has given a record of a counted array, or
-- NULL, and NULL only where as many arrays are counted as there is room for.
pub interleaved-IsCounted :
    (l : Layout) (fuel rounds : ℕ) (calls : ℕ → Call) (m : Growing)
    {y z : System Growing (Option ℕ)}
    → IsCounted l m
    → Reach (calling l fuel rounds calls m) y
    → Step y z
    → IsCounted l y.mem
      × IsCounted l z.mem
      × Grown l y.mem z.mem
      × ((i : ℕ) (o : Option ℕ) → calls i ≡ get → y.thread i ≡ ret o → Answered l o y.mem)
interleaved-IsCounted l fuel rounds calls m {y} {z} v r st =
    let p = growing-IsProtocol l in
    let post = Ended l fuel rounds calls in
    let b =
      Reach-Safe (growing l) p post (calling l fuel rounds calls m) y tt v
        (λ i. (perform-IsSafe l fuel rounds calls i (calls i) m).safe) r in
    let a = Step-Safe (growing l) p post y z b.0 b.1 b.2 st in
    (
      b.1,
      a.2,
      a.3,
      λ i o e q.
          subst (λ (t : Prog Growing (Option ℕ)). Safe (growing l) i (post i) t y.mem b.0) q (b.2 i)
            y.mem b.0 (Grown-refl l y.mem) e,
    )
