-- ===== src/Pool/Growing/Given.antt =====
-- What `get_Record` of cfilesforhazardpointer/hazard_long2.c gives, run alone.
use mathlib.Core.Path.{subst}
use psly_algorithm.Base.{
  ℕ, suc, ◌+◌, ◌-◌, ◌^◌, ◌<◌, ◌≤◌, ◌≡◌, refl, sym, ◌∙◌, ap, List, ◌∷◌, false, Option, none, some,
  arith, ◌==◌, Bool-cases, inl, inr, eq-of-==, ==_refl, if◌then◌else◌, update,
}
use psly_algorithm.Prog.{ret, run, Outcome, and_then, run->>=, ◌>>◌}
use psly_algorithm.Pool.{Layout, Memory, array_len, array_num, slot}
use psly_algorithm.Pool.Holds.{Holds}
use psly_algorithm.Pool.Get.{Single}
use psly_algorithm.Pool.Init.Fresh.{count_up}
use psly_algorithm.Pool.Growing.{Growing, in_pool, with_array, search, grow, get_record}
use psly_algorithm.Pool.Growing.Stock.{Found, found, none_found, search-Found, Taken-Stock}
use psly_algorithm.Pool.Growing.Alone.{
  within, run-in_pool, Keeps, Given, given, added, full, extended, grow-run, extended-Stock,
  newest-run, found-run, Stock-same,
}

count_up-two :
    (n k : ℕ)
    → n ≡ suc (suc k)
    → (count_up 0 n ≡ 0 ∷ 1 ∷ count_up 2 k) × (count_up 1 (n - 1) ≡ 1 ∷ count_up 2 k)
unfolding count_up
count_up-two n k e =
    let less : n - 1 ≡ suc k = omega (arith, e) in (ap (count_up 0) e, ap (count_up 1) less)

update-own : (f : ℕ → List ℕ) (a : ℕ) (xs : List ℕ) → update f a xs a ≡ xs
update-own f a xs = rw (==_refl a) refl

update-twice :
    (f : ℕ → List ℕ) (a c : ℕ) (xs ys zs : List ℕ)
    → ys ≡ zs
    → update (update f a xs) a ys c ≡ update f a zs c
update-twice f a c xs ys zs e = elim (Bool-cases (c == a)) [
  | inl here ↦ rw (here, e) refl
  | inr other ↦ rw other refl
]

module _ (l : Layout) (f : ℕ) (wide : 2 ≤ array_len l) where
  -- The round after an array was added.
  extended-Given :
      (rounds : ℕ) (m : Growing) (free : ℕ → List ℕ)
      → ((c : ℕ) → c < m.arrays → Single (free c))
      → m.arrays < array_num l
      → Keeps l m free
      → Given l m.arrays free (run (get_record l (suc (suc f)) (suc rounds)) (extended l m))
  extended-Given rounds m free all lt h =
      let n = m.arrays in
      let two = count_up-two (array_len l) (array_len l - 2) (omega (arith, wide)) in
      let free1 : ℕ → List ℕ = update free n (count_up 0 (array_len l)) in
      let s1 = extended-Stock l m free lt h.stock in
      let own =
        subst (Holds l (with_array l m.pool n) n)
          (update-own free n (count_up 0 (array_len l)) ∙ two.0) (s1.holds n (omega arith)) in
      let (q, ran, k) =
        newest-run l f n 0 1 (count_up 2 (array_len l - 2)) (with_array l m.pool n) own in
      rw (found-run l (suc (suc f)) rounds (slot l n 0) (extended l m) q ran) (
        added all lt refl (record {
          stock =
              Stock-same l (n + 1) q _ _ (λ c. update-twice free n c _ _ _ (sym two.1))
                (Taken-Stock l (n + 1) free1 n (with_array l m.pool n) q _ (omega arith) s1 k);
          missing = λ a le. ground (arith, h.missing a, le, eq-of-== a n);
        }))

  searched-Given :
      (rounds : ℕ) (m : Growing) (free : ℕ → List ℕ) {o : Outcome Memory (Option ℕ)}
      → m.arrays ≤ array_num l
      → ((a : ℕ) → m.arrays ≤ a → m.present a ≡ false)
      → Found l m.arrays free (λ _. (c : ℕ) → c < m.arrays → Single (free c)) o
      → Given l m.arrays free (
          and_then (within m o) (λ taken m'.
            run
              (elim taken [
                | some r ↦ ret (some r)
                | none ↦
                    if m.arrays == array_num l
                    then ret none
                    else grow l m.arrays >> get_record l (suc (suc f)) (suc rounds)
              ])
              m'))
  searched-Given rounds m free le gone (found c x y r lt e s) =
      given c x y r lt e refl (record { stock = s; missing = gone })
  searched-Given rounds m free le gone (none_found {m = q} s all) =
      let m1 : Growing = record m { pool = q } in
      elim (Bool-cases (m.arrays == array_num l)) [
        | inl same ↦ rw same (
            full all (eq-of-== m.arrays (array_num l) same) refl
              (record { stock = s; missing = gone }))
        | inr more ↦
            rw
              (
                more,
                run->>= (grow l m.arrays) (λ _. get_record l (suc (suc f)) (suc rounds)) m1,
                grow-run l m1 (gone m.arrays (omega arith)),
              )
              (extended-Given rounds m1 free all (ground (arith, more, le, ==_refl m.arrays))
                (record { stock = s; missing = gone }))
      ]

  -- Run alone on a growing pool whose arrays have at least two records, with two rounds for each of
  -- its loops, where `recordTake` stays below 2^63: `get_Record` returns the oldest record of a
  -- queue that had two or more, the other queues as before; or, where every queue of the counted
  -- arrays has just the record that it keeps back and there is room for one more array, the first
  -- record of a new array, which is then the last of the counted ones and holds its other records
  -- in order; or NULL, where there is no room.
  pub get_record-Given :
      (rounds : ℕ) (m : Growing) (free : ℕ → List ℕ)
      → 0 < m.arrays
      → m.arrays ≤ array_num l
      → m.pool.record_take + m.arrays < 2 ^ 63
      → Keeps l m free
      → Given l m.arrays free (run (get_record l (suc (suc f)) (suc (suc rounds))) m)
  unfolding get_record
  get_record-Given rounds m free pos le few h =
      rw
        (
          run->>= (in_pool (search l (suc (suc f)) m.arrays)) _ m,
          run-in_pool (search l (suc (suc f)) m.arrays) m,
        )
        (searched-Given rounds m free le h.missing
          (search-Found l m.arrays free f m.pool pos few h.stock))
