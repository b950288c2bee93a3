-- ===== src/Embedded/Tests.antt =====
-- The engine's and the capability calls' theorems at concrete requests.
use realy.Common.{◌≡◌, refl, ◌⊎◌, inl, inr, String, none, some, [], ◌∷◌}
use realy.Common.Maps.{lookup}
use realy.Types.{
  Run, Request, CompiledInstructions, Input, InstructionBundle, CapabilityGrant, CapabilityCall,
  CapabilityRequest,
}
use realy.Controlplane.Types.{nil}
use realy.Controlplane.Fixture.{world, request, result, claimed_run}
use realy.Embedded.Store.{new_memory_store}
use realy.Embedded.Engine.{Engine, Outcome, Work, execute}
use realy.Embedded.Outcomes.{EndsAt, key_of, run_in, execute_ends, execute_again}
use realy.Embedded.Capability.{Invoker, InvokerOptions}
use realy.Embedded.Capability.Calling.{call_capability}
use realy.Embedded.Capability.Once.{call_again}
use realy.Embedded.Capability.Granted.{AddsGranted, call_granted}

abbrev fresh_engine : Engine
fresh_engine = record { store = new_memory_store; observed = []; readings = 0; draws = 0 }

abbrev worker : Run → Request → CompiledInstructions → Work
worker _ _ _ = record { emitted = ("progress", nil) ∷ []; outcome = inr result }

abbrev failing : Run → Request → CompiledInstructions → Work
failing _ _ _ = record { emitted = []; outcome = inl "broken" }

abbrev compile_all : Input → InstructionBundle → String ⊎ CompiledInstructions
compile_all input instructions = inr record { stable = ""; prompt = "do it" }

execute_ends_example :
    (id : String) × EndsAt id
      (execute world worker compile_all request fresh_engine).0
      (execute world worker compile_all request fresh_engine).1
    × (lookup
          (key_of request)
          (execute world worker compile_all request fresh_engine).1.store.by_request
        ≡ some id)
unfolding new_memory_store lookup
execute_ends_example = execute_ends world worker compile_all request fresh_engine refl refl

execute_again_example :
    let first = execute world worker compile_all request fresh_engine in
    let second = execute world failing compile_all request first.1 in
    (second.0 ≡ Outcome.found (run_in first.0))
    × (second.1.store ≡ first.1.store)
    × (second.1.observed ≡ first.1.observed)
unfolding new_memory_store lookup
execute_again_example =
    execute_again world worker failing compile_all compile_all request request fresh_engine refl
      refl refl refl

abbrev grant : CapabilityGrant
grant = record { name = "issue.comment"; version = "1"; effect = "write"; resources = "42" ∷ [] }

abbrev call : CapabilityCall
call = record {
  name = "issue.comment";
  version = "";
  idempotency_key = "k";
  resource = "42";
  input = "{}";
}

abbrev options : InvokerOptions (Unit {0})
options = record {
  run = claimed_run;
  principal = request.principal;
  grants = grant ∷ [];
  provider = some (λ (asked : CapabilityRequest). inr "done");
  reservations = none;
  encode = λ (asked : CapabilityRequest). "{}";
}

abbrev idle_invoker : Invoker (Unit {0})
idle_invoker = record { calls = []; emitted = []; invoked = []; outside = tt; draws = 0 }

call_granted_example :
    AddsGranted world options idle_invoker (call_capability world options call idle_invoker).1
call_granted_example = call_granted world options call idle_invoker

call_again_example :
    call_capability world options call (call_capability world options call idle_invoker).1
    ≡ call_capability world options call idle_invoker
call_again_example = call_again world options call idle_invoker
