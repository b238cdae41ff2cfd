-- ===== src/Hazard/Examples.antt =====
-- A scan of three retired nodes, of which a hazard pointer holds one.
use psly_algorithm.Base.{◌≡◌, refl, false, arith, ◌==◌, if◌then◌else◌}
use psly_algorithm.Hazard.{Heap, is_in}
use psly_algorithm.Hazard.Freed.{Freed, slot_guard, scan-is_in-Freed}

abbrev retired : Heap (Unit {0})
retired = record {
  nodes = λ _. record { value = 0; next = 0 };
  head = 1;
  tail = 1;
  slots = λ i. if i == 1 then 7 else 0;
  slot_count = 2;
  recs = λ _. record {
    base = 0;
    next = 0;
    active = 1;
    rcount = 2;
    count = 3;
    list = λ i. if i == 0 then 5 else if i == 1 then 7 else 9;
  };
  first_rec = 0;
  scans = 0;
  freed = λ _. false;
  guards = tt;
}

scan-is_in-Freed_example : Freed slot_guard 0 is_in 4 retired
scan-is_in-Freed_example = scan-is_in-Freed 0 4 retired (omega arith)

-- The node that the hazard pointer holds is not freed, and one of the others is.
spared : scan-is_in-Freed_example.after.freed 7 ≡ false
spared = scan-is_in-Freed_example.scanned.spares 7 refl
