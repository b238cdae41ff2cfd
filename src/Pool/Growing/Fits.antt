-- ===== src/Pool/Growing/Fits.antt =====
-- What the searches of cfilesforhazardpointer/hazard_long2.c give back, whatever other threads do:
-- a record of one of the arrays that are searched.
use native.Mathlib.Nat.{mod-lt}
use psly_algorithm.Base.{
  ℕ, zero, suc, ◌+◌, ◌/◌, ◌-◌, ◌%◌, ◌^◌, ◌≤◌, ◌<◌, ◌≡◌, refl, Bool, true, false, Option, none, some,
  arith, ◌==◌, ltb, inl, inr, Bool-cases, if◌then◌else◌,
}
use psly_algorithm.Prog.{
  Prog, ret, act, out_of_fuel, crash, ◌>>=◌, Obeys, finish, access, give_up, fail,
}
use psly_algorithm.Pool.Worker.{Tagged}
use psly_algorithm.Pool.{
  Layout, Memory, array_len, index_of, is_last, move_end, slot, take_from, take_each, or_else, cas,
  with_head, with_tail,
}
use psly_algorithm.Pool.Words.{slot-div, index_of-lt}
use psly_algorithm.Pool.Growing.{take_once, take_signed, take_turns, search}

abbrev pub SameSelves : Memory → Memory → Type 0
SameSelves m m' = (r : ℕ) → (m'.records r).self ≡ (m.records r).self

-- No access stores a `self`, and what is given back is as `P` says.
abbrev pub Fits : {A : Type 0} → (A → Type 0) → Prog Memory A → Type 0
Fits P (ret a) = P a
Fits P (act f k) = (m : Memory) → SameSelves m (f m).1 × Fits P (k (f m).0)
Fits P out_of_fuel = Unit
Fits P crash = Unit

-- No record, or one of the first `n` arrays.
abbrev pub Within : Layout → ℕ → Option ℕ → Type 0
Within l n none = Unit
Within l n (some r) = r / array_len l < n

Fits->>= :
    {A B : Type 0} (P : A → Type 0) (Q : B → Type 0) (p : Prog Memory A) (g : A → Prog Memory B)
    → Fits P p
    → ((a : A) → P a → Fits Q (g a))
    → Fits Q (p >>= g)
Fits->>= P Q (ret a) g h next = next a h
Fits->>= P Q (act f k) g h next = λ m. ((h m).0, Fits->>= P Q (k (f m).0) g (h m).1 next)
Fits->>= P Q out_of_fuel g h next = tt
Fits->>= P Q crash g h next = tt

Fits-if :
    {A : Type 0} (P : A → Type 0) (b : Bool) (p q : Prog Memory A)
    → Fits P p
    → Fits P q
    → Fits P (if b then p else q)
Fits-if P true p q h k = h
Fits-if P false p q h k = k

pub Obeys-Fits :
    (l : Layout) (returned : ℕ → Type 0) {A : Type 0} {p : Prog Memory A}
    → Obeys (Tagged l returned) p
    → Fits (λ _. Unit {0}) p
Obeys-Fits l returned (finish a) = tt
Obeys-Fits l returned (access h t) = λ m. ((h m).selves, Obeys-Fits l returned (t m))
Obeys-Fits l returned give_up = tt
Obeys-Fits l returned fail = tt

module _ (l : Layout) (n : ℕ) where
  or_else-Fits :
      (o : Option ℕ) (p : Prog Memory (Option ℕ))
      → Within l n o
      → Fits (Within l n) p
      → Fits (Within l n) (or_else o p)
  or_else-Fits none p h k = k
  or_else-Fits (some r) p h k = h

  module _ (array : ℕ) (lt : array < n) where
    slot-Within : (w : ℕ) → Within l n (some (slot l array (index_of l w)))
    slot-Within w = rw (slot-div l array (index_of l w) (index_of-lt l w)) lt

    cas_head-SameSelves :
        (old new : ℕ) (m : Memory)
        → SameSelves m (cas (λ m. (m.queues array).head) (λ m w. with_head m array w) old new m).1
    cas_head-SameSelves old new m r = elim (Bool-cases ((m.queues array).head == old)) [
      | inl same ↦ rw same refl
      | inr other ↦ rw other refl
    ]

    cas_tail-SameSelves :
        (old new : ℕ) (m : Memory)
        → SameSelves m (cas (λ m. (m.queues array).tail) (λ m w. with_tail m array w) old new m).1
    cas_tail-SameSelves old new m r = elim (Bool-cases ((m.queues array).tail == old)) [
      | inl same ↦ rw same refl
      | inr other ↦ rw other refl
    ]

    take_once-Fits : (fuel : ℕ) → Fits (Within l n) (take_once l fuel array)
    unfolding take_once
    take_once-Fits zero = tt
    take_once-Fits (suc fuel) = λ m0. (
      λ r. refl,
      λ m1. (
        λ r. refl,
        λ m2. (
          λ r. refl,
          λ m3. (
            λ r. refl,
            let hd = (m0.queues array).head in
                let tl = (m1.queues array).tail in
                let nx = (m2.records (slot l array (index_of l hd))).next in
                Fits-if (Within l n) (hd == (m3.queues array).head) _ _
                  (Fits-if (Within l n) (index_of l hd == index_of l tl) _ _
                    (Fits-if (Within l n) (is_last l nx) _ _ tt
                      (λ m. (cas_tail-SameSelves tl (move_end l tl nx) m, take_once-Fits fuel)))
                    (λ m. (
                      cas_head-SameSelves hd (move_end l hd nx) m,
                      Fits-if (Within l n)
                          ((cas (λ m. (m.queues array).head) (λ m w. with_head m array w) hd
                              (move_end l hd nx) m).0
                            == 1)
                          _ _ (slot-Within hd) tt,
                    )))
                  (take_once-Fits fuel),
          ),
        ),
      ),
    )

    take_from-Fits : (fuel : ℕ) → Fits (Within l n) (take_from l fuel array)
    unfolding take_from
    take_from-Fits zero = tt
    take_from-Fits (suc fuel) = λ m0. (
      λ r. refl,
      λ m1. (
        λ r. refl,
        λ m2. (
          λ r. refl,
          λ m3. (
            λ r. refl,
            let hd = (m0.queues array).head in
                let tl = (m1.queues array).tail in
                let nx = (m2.records (slot l array (index_of l hd))).next in
                Fits-if (Within l n) (hd == (m3.queues array).head) _ _
                  (Fits-if (Within l n) (index_of l hd == index_of l tl) _ _
                    (Fits-if (Within l n) (is_last l nx) _ _ tt
                      (λ m. (cas_tail-SameSelves tl (move_end l tl nx) m, take_from-Fits fuel)))
                    (λ m. (
                      cas_head-SameSelves hd (move_end l hd nx) m,
                      Fits-if (Within l n)
                          ((cas (λ m. (m.queues array).head) (λ m w. with_head m array w) hd
                              (move_end l hd nx) m).0
                            == 1)
                          _ _ (slot-Within hd) (take_from-Fits fuel),
                    )))
                  (take_from-Fits fuel),
          ),
        ),
      ),
    )

  take_signed-Fits : (fuel taken : ℕ) → 0 < n → Fits (Within l n) (take_signed l fuel n taken)
  unfolding take_signed
  take_signed-Fits fuel taken pos =
      Fits-if (Within l n) (ltb taken (2 ^ 63)) _ _
        (take_once-Fits (taken % n) (mod-lt taken pos) fuel)
        (Fits-if (Within l n) ((2 ^ 64 - taken) % n == 0) _ _ (take_once-Fits 0 pos fuel) tt)

  take_turns-Fits : (fuel k : ℕ) → 0 < n → Fits (Within l n) (take_turns l fuel n k)
  unfolding take_turns
  take_turns-Fits fuel zero pos = tt
  take_turns-Fits fuel (suc k) pos = λ m. (
    λ r. refl,
    Fits->>= (Within l n) (Within l n) (take_signed l fuel n m.record_take) _
        (take_signed-Fits fuel m.record_take pos)
        (λ o h. or_else-Fits o (take_turns l fuel n k) h (take_turns-Fits fuel k pos)),
  )

  take_each-Fits : (fuel k i : ℕ) → i + k ≤ n → Fits (Within l n) (take_each l fuel k i)
  unfolding take_each
  take_each-Fits fuel zero i le = tt
  take_each-Fits fuel (suc k) i le =
      Fits->>= (Within l n) (Within l n) (take_from l fuel i) _
        (take_from-Fits i (omega (arith, le)) fuel)
        (λ o h.
          or_else-Fits o (take_each l fuel k (i + 1)) h
            (take_each-Fits fuel k (i + 1) (omega (arith, le))))

  pub search-Fits : (fuel : ℕ) → 0 < n → Fits (Within l n) (search l fuel n)
  unfolding search
  search-Fits fuel pos =
      Fits->>= (Within l n) (Within l n) (take_once l fuel (n - 1)) _
        (take_once-Fits (n - 1) (omega (arith, pos)) fuel)
        (λ o h. or_else-Fits o _ h (
          Fits->>= (Within l n) (Within l n) (take_turns l fuel n n) _ (take_turns-Fits fuel n pos)
            (λ o' h'.
              or_else-Fits o' (take_each l fuel n 0) h' (take_each-Fits fuel n 0 (omega arith)))))
