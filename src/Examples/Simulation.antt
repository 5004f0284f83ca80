-- ===== src/Examples/Simulation.antt =====
-- Examples of Simulator.
use savantix_dali_edge_contr.Prelude.{◌≡◌, refl, arith}
use savantix_dali_edge_contr.Simulator.{receive}
use savantix_dali_edge_contr.Simulator.Ring.{IsValid, pending, play, receive_refines}
use savantix_dali_edge_contr.Examples.Fixtures.{working_phy}

working_phy-IsValid : IsValid working_phy
working_phy-IsValid = record { sized = refl; head_in = omega arith; fits = omega arith }

receive_refines_example :
    let (result, byte, p') = receive working_phy 0 20 in
    ((result, byte, pending p') ≡ play (pending working_phy) 0 20) × IsValid p'
receive_refines_example = receive_refines working_phy 0 20 working_phy-IsValid (refl, refl, refl)
