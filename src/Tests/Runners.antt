-- ===== src/Tests/Runners.antt =====
-- The runner, the records and the clock at concrete inputs.
use private_match_protocol.Prelude.{arith, ◌≡◌, refl, ◌≢◌, List, [], ◌+ℤ◌, ◌*ℤ◌}
use private_match_protocol.Findings.{Finding}
use private_match_protocol.Digest.Errors.{Outcome, ok}
use private_match_protocol.Times.{replace_zulu}
use private_match_protocol.Phases.{closed}
use private_match_protocol.Runner.{Runner, new_runner}
use private_match_protocol.Runner.Apply.{apply}
use private_match_protocol.Runner.Guards.{unmet}
use private_match_protocol.Runner.Setup.{proposal_guards, propose}
use private_match_protocol.Runner.Invariant.{Inv, new_runner-Inv}
use private_match_protocol.Runner.Preserved.{apply-Inv, apply_found}
use private_match_protocol.Runner.Agreement.{Agreement, new_runner-Agreement, apply-Agreement}
use private_match_protocol.Runner.Terminal.{apply_over}
use private_match_protocol.Tests.Data.{
  hashing, calendar, context, proposal, registry, materials, new_session, proposed,
}

abbrev Applied : Type 0
Applied = List Finding × Runner

abbrev applied_of : Outcome Applied → Applied
applied_of (ok t) = t
applied_of _ = ([], new_session)

abbrev applied : Outcome Applied
applied = apply hashing calendar new_session proposal registry materials

applied_at : applied ≡ ok ([], (applied_of applied).1)
unfolding apply new_runner proposal_guards unmet replace_zulu ◌+ℤ◌ ◌*ℤ◌
applied_at = refl

new_session-Inv : Inv new_session
unfolding new_runner
new_session-Inv = new_runner-Inv context refl

apply-Inv_example : Inv (applied_of applied).1
apply-Inv_example =
    apply-Inv hashing calendar new_session proposal registry materials applied_at new_session-Inv

-- The same proposal, again.
abbrev again : Outcome Applied
again = apply hashing calendar proposed proposal registry materials

again_at : again ≡ ok ((applied_of again).0, (applied_of again).1)
unfolding apply new_runner proposal_guards unmet replace_zulu ◌+ℤ◌ ◌*ℤ◌ propose
again_at = refl

again_found : (applied_of again).0 ≢ []
unfolding apply new_runner proposal_guards unmet replace_zulu ◌+ℤ◌ ◌*ℤ◌ propose
again_found e = ground arith

apply_found_example : (applied_of again).1 ≡ proposed
apply_found_example =
    apply_found hashing calendar proposed proposal registry materials again_at again_found

abbrev over_session : Runner
over_session = record new_session { phase = closed }

abbrev over : Outcome Applied
over = apply hashing calendar over_session proposal registry materials

over_at : over ≡ ok ((applied_of over).0, (applied_of over).1)
unfolding apply new_runner proposal_guards unmet replace_zulu ◌+ℤ◌ ◌*ℤ◌ propose
over_at = refl

apply_over_example : ((applied_of over).0 ≢ []) × ((applied_of over).1 ≡ over_session)
apply_over_example =
    apply_over hashing calendar over_session proposal registry materials over_at refl

new_session-Agreement : Agreement new_session
new_session-Agreement = new_runner-Agreement context

apply-Agreement_example : Agreement (applied_of applied).1
apply-Agreement_example =
    apply-Agreement hashing calendar new_session proposal registry materials applied_at
      new_session-Agreement
