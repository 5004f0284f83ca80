-- ===== src/Examples/Registries.antt =====
-- Examples of Device/Calls.
use savantix_dali_edge_contr.Prelude.{ℕ, ◌+◌, false, replicate, [], ◌∷◌, ◌==◌, ◌||◌, if◌then◌else◌}
use savantix_dali_edge_contr.Core.{ShortAddress, unavailable_reading, valid_reading}
use savantix_dali_edge_contr.Phy.{PhyResult}
use savantix_dali_edge_contr.Protocol.Query.{DaliQueryOutcome, DaliQueryResult, IDaliQueryClient}
use savantix_dali_edge_contr.Device.Registry.{empty_registry}
use savantix_dali_edge_contr.Device.Registry.Count.{IsValid, empty_registry-IsValid}
use savantix_dali_edge_contr.Device.Calls.{Call, Managed, run, run-IsValid}
use savantix_dali_edge_contr.Examples.Fixtures.{millionths}

abbrev silence : DaliQueryResult
silence = record {
  outcome = DaliQueryOutcome.no_response;
  response = unavailable_reading 0;
  attempts = 4;
  phy_result = PhyResult.timeout;
}

abbrev answer : DaliQueryResult
answer = record {
  outcome = DaliQueryOutcome.ok;
  response = valid_reading 0 0 0 false;
  attempts = 1;
  phy_result = PhyResult.ok;
}

-- A client whose devices have the addresses 7 and 8, and which counts its queries.
abbrev two_lamps : IDaliQueryClient ℕ
two_lamps = record {
  query = λ n address command priority.
      (if address.value == 7 || address.value == 8 then answer else silence, n + 1);
}

abbrev lamp : ShortAddress
lamp = record { value = 7 }

abbrev empty_manager : Managed ℕ ℕ
empty_manager = record {
  client = 0;
  registry = empty_registry;
  duplicate_reported = replicate 64 false;
}

run-IsValid_example :
    IsValid
      (run millionths two_lamps
        (Call.scan 1000 ∷ Call.detect lamp 2000 ∷ [])
        empty_manager).1.registry
run-IsValid_example =
    run-IsValid millionths two_lamps (Call.scan 1000 ∷ Call.detect lamp 2000 ∷ []) empty_manager
      (empty_registry-IsValid ℕ)
