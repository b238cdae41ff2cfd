-- ===== src/Programs/HazardLoop.antt =====
-- cfilesforhazardpointer/hazardloop.c: the functions it shares with the models.
use psly_algorithm.Base.{ℕ, Bool}
use psly_algorithm.Prog.{Prog}
use psly_algorithm.Pool.{Memory}
use psly_algorithm.Hazard.{Heap, Settings}
use psly_algorithm.Hazard
use psly_algorithm.HandleQueue.{Handles}
use psly_algorithm.HandleQueue

-- Hazard records and the queue, over the operations on keys of this file.
abbrev allocate_hp_rec : Settings → ℕ → ℕ → Prog (Heap Memory) ℕ
allocate_hp_rec = Hazard.allocate_hp_rec

abbrev retire_hp_rec : ℕ → Prog (Heap Memory) ℕ
retire_hp_rec = Hazard.retire_hp_rec

abbrev has_handle : Handles Memory → ℕ → Prog (Heap Memory) Bool
has_handle = HandleQueue.has_handle

abbrev scan : Handles Memory → ℕ → ℕ → Prog (Heap Memory) ℕ
scan ops = Hazard.scan (has_handle ops)
