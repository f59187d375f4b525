-- ===== src/Evolution/StateMachine/Legacy.antt =====
-- `stateFromLegacyStatus` of src/evolution/state-machine.ts.
use devagent_ts.Evolution.StateMachine.States.{EvolutionState, active, rollback}

-- The statuses of version 1, `VersionStatus`.
pub data LegacyStatus : Type 0 where
  candidate validated promoted rejected rolled_back : LegacyStatus

pub state_from_legacy_status : LegacyStatus → EvolutionState
state_from_legacy_status candidate = EvolutionState.candidate
state_from_legacy_status validated = EvolutionState.validated
state_from_legacy_status promoted = active
state_from_legacy_status rejected = EvolutionState.rejected
state_from_legacy_status rolled_back = rollback
