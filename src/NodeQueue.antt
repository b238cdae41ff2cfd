-- ===== src/NodeQueue.antt =====
-- The queue of hazardpointer.c, an access at a time: a list of nodes from `Head`, whose first node
-- is a dummy, with hazard pointers for the nodes that a thread reads.
pub mod Chain
pub mod Shared
pub mod Enqueue
pub mod Dequeue
pub mod Threads
pub mod Holds
pub mod Link
pub mod Put
pub mod Take
mod Examples
use psly_algorithm.Base.{ℕ, zero, suc, ◌-◌, ◌^◌, ◌==◌, if◌then◌else◌, update}
use psly_algorithm.Prog.{Prog, ret, out_of_fuel, ◌>>=◌, ◌>>◌}
use psly_algorithm.Hazard.{Heap, Settings, load, store, swap, set_hp, is_in, retire_node}

-- -1000000, an `int`
abbrev pub no_value : ℕ
no_value = 2 ^ 32 - 1000000

module _ {X : Type 0} where
  abbrev pub with_value : Heap X → ℕ → ℕ → Heap X
  with_value m r v = record m { nodes = update m.nodes r (record (m.nodes r) { value = v }) }

  abbrev pub with_next : Heap X → ℕ → ℕ → Heap X
  with_next m r v = record m { nodes = update m.nodes r (record (m.nodes r) { next = v }) }

  abbrev pub with_tail : Heap X → ℕ → Heap X
  with_tail m v = record m { tail = v }

  abbrev pub with_head : Heap X → ℕ → Heap X
  with_head m v = record m { head = v }

  abbrev pub swap_tail : ℕ → ℕ → Prog (Heap X) ℕ
  swap_tail old new = swap (λ m. m.tail) with_tail old new

  abbrev pub swap_head : ℕ → ℕ → Prog (Heap X) ℕ
  swap_head old new = swap (λ m. m.head) with_head old new

  abbrev pub swap_next : ℕ → ℕ → ℕ → Prog (Heap X) ℕ
  swap_next r old new = swap (λ m. (m.nodes r).next) (λ m v. with_next m r v) old new

  -- The loop of `enqueue`: the node behind which `node` is linked.
  unfoldable pub link_loop : ℕ → ℕ → ℕ → Prog (Heap X) ℕ
  link_loop me zero node = out_of_fuel
  link_loop me (suc fuel) node = do
    t ← load (λ m. m.tail)
    set_hp me 0 t
    t1 ← load (λ m. m.tail)
    let again = link_loop me fuel node
    if t1 == t
        then (do
          next ← load (λ m. (m.nodes t).next)
          t2 ← load (λ m. m.tail)
          if t2 == t
              then if next == 0
                then (do won ← swap_next t 0 node; if won == 1 then ret t else again)
                else (do swap_tail t next; again)
              else (do set_hp me 0 0; again))
        else (do set_hp me 0 0; again)

  -- `enqueue`, where `malloc` gives `node`.
  unfoldable pub enqueue : ℕ → ℕ → ℕ → ℕ → Prog (Heap X) ℕ
  enqueue me fuel node value = do
    store (λ m. with_value m node value)
    store (λ m. with_next m node 0)
    t ← link_loop me fuel node
    swap_tail t node
    set_hp me 0 0

  -- `if(flagRet) retireNode(h); return data;`
  unfoldable pub retire_head : Settings → ℕ → ℕ → ℕ → ℕ → Prog (Heap X) ℕ
  retire_head set me fuel h value =
      if set.flag_ret then (do retire_node is_in me set fuel fuel h; ret value) else ret value

  -- `dequeue`
  unfoldable pub dequeue : Settings → ℕ → ℕ → Prog (Heap X) ℕ
  dequeue set me zero = out_of_fuel
  dequeue set me (suc fuel) = do
    h ← load (λ m. m.head)
    set_hp me 0 h
    h1 ← load (λ m. m.head)
    let again = dequeue set me fuel
    if h1 == h
        then (do
          t ← load (λ m. m.tail)
          next ← load (λ m. (m.nodes h).next)
          set_hp me 1 next
          h2 ← load (λ m. m.head)
          if h2 == h
              then if next == 0
                then ret no_value
                else if h == t
                then (do swap_tail t next; again)
                else (do
                  value ← load (λ m. (m.nodes next).value)
                  set_hp me 1 0
                  set_hp me 0 0
                  won ← swap_head h next
                  if won == 1 then retire_head set me fuel h value else again)
              else again)
        else again
