-- ===== src/Counter.antt =====
-- The atomic counters of cfilesforhazardpointer/mayijin/LockFreeAtomic.c: the shared word names a
-- handle and a version of it, and the handle has two values, of which the version says which is meant.
pub mod Alone
pub mod History
pub mod Shared
pub mod Rules
pub mod Threads
mod Examples
use psly_algorithm.Base.{ℕ, zero, suc, ◌+◌, ◌*◌, ◌/◌, ◌%◌, ◌^◌, ◌==◌, if◌then◌else◌, update}
use psly_algorithm.Prog.{Prog, ret, act, out_of_fuel, ◌>>=◌, ◌>>◌}

-- `Handle_t`: `value[2]` and the 16 bits of `version`
pub record Handle : Type 0 where
  pub value : ℕ → ℕ
  pub version : ℕ

-- `Value` and `handle`. Of `Value` only the lower 32 bits: the others repeat the highest of them.
pub record Counter : Type 0 where
  pub word : ℕ
  pub handles : ℕ → Handle

-- Static data is zero at first.
abbrev pub zeroed : Counter
zeroed = record { word = 0; handles = λ _. record { value = λ _. 0; version = 0 } }

-- `INDEX` and `VERSION`
unfoldable pub index : ℕ → ℕ
index v = v % 2 ^ 16

unfoldable pub version_of : ℕ → ℕ
version_of v = v / 2 ^ 16 % 2 ^ 16

-- `threadId | ((meHandle->version + 1) << 16)`
unfoldable pub next_word : ℕ → ℕ → ℕ
next_word thread version = (version + 1) % 2 ^ 16 * 2 ^ 16 + thread % 2 ^ 16

abbrev pub with_value : Counter → ℕ → ℕ → ℕ → Counter
with_value m thread i v = record m {
  handles =
      update m.handles thread
        (record (m.handles thread) { value = update (m.handles thread).value i v });
}

abbrev pub with_version : Counter → ℕ → ℕ → Counter
with_version m thread v = record m {
  handles = update m.handles thread (record (m.handles thread) { version = v });
}

abbrev pub read : (Counter → ℕ) → Prog Counter ℕ
read f = act (λ m. (f m, m)) ret

abbrev pub write_value : ℕ → ℕ → ℕ → Prog Counter ℕ
write_value thread i v = act (λ m. (v, with_value m thread i v)) ret

abbrev pub write_version : ℕ → ℕ → Prog Counter ℕ
write_version thread v = act (λ m. (v, with_version m thread v)) ret

-- `CAS_VALUE`: 1 if the word was `old` and is now `new`
abbrev pub cas_word : ℕ → ℕ → Prog Counter ℕ
cas_word old new = act (λ m. if m.word == old then (1, record m { word = new }) else (0, m)) ret

-- `getAndIncrement`; the result is an `int`
unfoldable pub get_and_increment : ℕ → ℕ → Prog Counter ℕ
get_and_increment zero thread = out_of_fuel
get_and_increment (suc n) thread =
    let rest = get_and_increment n thread in
    do
      word ← read (λ m. m.word)
      value ← read (λ m. (m.handles (index word)).value (version_of word % 2))
      again ← read (λ m. m.word)
      if word == again
          then (do
            version ← read (λ m. (m.handles thread).version)
            write_value thread ((version + 1) % 2) ((value + 1) % 2 ^ 64)
            version' ← read (λ m. (m.handles thread).version)
            won ← cas_word word (next_word thread version')
            if won == 1
                then (do
                  version'' ← read (λ m. (m.handles thread).version)
                  write_version thread ((version'' + 1) % 2 ^ 16)
                  ret (value % 2 ^ 32))
                else rest)
          else rest

-- `getAndIncrement2` and `getAndIncrement3`, with the word as the count
unfoldable pub get_and_increment_by_cas : ℕ → Prog Counter ℕ
get_and_increment_by_cas zero = out_of_fuel
get_and_increment_by_cas (suc n) =
    let rest = get_and_increment_by_cas n in
    do
      value ← read (λ m. m.word)
      won ← cas_word value ((value + 1) % 2 ^ 64)
      if won == 1 then ret (value % 2 ^ 32) else rest

unfoldable pub get_and_increment_by_add : Prog Counter ℕ
get_and_increment_by_add =
    act (λ m. (m.word % 2 ^ 32, record m { word = (m.word + 1) % 2 ^ 64 })) ret
