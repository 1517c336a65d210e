-- ===== src/Primitives/Aggregator.antt =====
-- The enums of packages/shared-primitives/src/aggregator/index.ts.
use aggregator_dpg.Prelude.{Bool, true, false}

pub data AggregatorStatus : Type 0 where
  pending active inactive retired : AggregatorStatus

abbrev pub is_pending : AggregatorStatus → Bool
is_pending pending = true
is_pending _ = false

abbrev pub is_active : AggregatorStatus → Bool
is_active active = true
is_active _ = false

abbrev pub is_inactive : AggregatorStatus → Bool
is_inactive inactive = true
is_inactive _ = false

abbrev pub is_retired : AggregatorStatus → Bool
is_retired retired = true
is_retired _ = false

abbrev pub status_eq : AggregatorStatus → AggregatorStatus → Bool
status_eq pending b = is_pending b
status_eq active b = is_active b
status_eq inactive b = is_inactive b
status_eq retired b = is_retired b

pub data ActorType : Type 0 where
  aggregator seeker provider : ActorType

abbrev pub actor_eq : ActorType → ActorType → Bool
actor_eq aggregator aggregator = true
actor_eq seeker seeker = true
actor_eq provider provider = true
actor_eq _ _ = false
