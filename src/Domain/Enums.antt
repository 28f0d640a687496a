-- ===== src/Domain/Enums.antt =====
-- shannon/domain/enums.py: the states that the stores keep and the services branch on.
use shannon_bot.Base.{Bool, true, false, not}

pub data ObjectType : Type 0 where
  pr issue ticket : ObjectType

pub data Status : Type 0 where
  not_reviewed in_review backlog done : Status

pub data Priority : Type 0 where
  high medium low unset : Priority

pub data StateChange : Type 0 where
  closed merged reopened : StateChange

pub data DeliveryStatus : Type 0 where
  pending processing processed ignored failed : DeliveryStatus

unfoldable pub is_processing : DeliveryStatus → Bool
is_processing processing = true
is_processing _ = false

unfoldable pub is_pending : DeliveryStatus → Bool
is_pending pending = true
is_pending _ = false

unfoldable pub is_failed : DeliveryStatus → Bool
is_failed failed = true
is_failed _ = false

-- `status in DeliveryStatus.live()`
unfoldable pub is_live : DeliveryStatus → Bool
is_live pending = true
is_live processing = true
is_live _ = false

-- `status in DeliveryStatus.terminal()`: every status that is not live.
unfoldable pub is_terminal : DeliveryStatus → Bool
unfolding is_live
is_terminal s = not (is_live s)
