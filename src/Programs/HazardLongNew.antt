-- ===== src/Programs/HazardLongNew.antt =====
-- cfilesforhazardpointer/hazard_long_new.c: the functions it shares with the models, at its own layout.
use psly_algorithm.Base.{ℕ, Option}
use psly_algorithm.Prog.{Prog}
use psly_algorithm.Pool.{Layout, Memory}
use psly_algorithm.Pool

abbrev layout : Layout
layout = record { ref_num = 16; idx_num = 16; arr_num = 4; list_num = 131072 }

abbrev get_record : ℕ → Prog Memory (Option ℕ)
get_record = Pool.get_record layout

abbrev return_record : ℕ → ℕ → Prog Memory (Unit {0})
return_record = Pool.return_record layout
