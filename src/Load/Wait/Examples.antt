-- ===== src/Load/Wait/Examples.antt =====
-- A wait of two milliseconds, whose timer fires early once.
use fault_affinity.Prelude.{refl, true, false, none, some, arith}
use fault_affinity.Load.Wait.{Waiting, start_wait, wait_for_remainder}
use fault_affinity.Load.Wait.Lasting.{Waits, armed, fired, IsLasting, Waits-IsLasting}

abbrev early : Waiting
early = record { deadline_ns = 2_000_100; outcome = none; timer = some 1 }

abbrev over : Waiting
over = record { deadline_ns = 2_000_100; outcome = some true; timer = none }

over-Waits : Waits 2 100 2_500_000 over
unfolding start_wait wait_for_remainder
over-Waits =
    let early_waits : Waits 2 100 1_500_000 early =
      fired false 100 1_500_000 armed refl (omega arith) in
    fired false 1_500_000 2_500_000 early_waits refl (omega arith)

Waits-IsLasting_example : IsLasting 2 100 2_500_000 over
Waits-IsLasting_example = Waits-IsLasting 2 100 2_500_000 over over-Waits
