-- ===== src/Tests/State.antt =====
-- internal/state at concrete inputs.
use nk.Base.{All}
use nk.State.Access.{from_access}
use nk.State.Safe.{IsSafe, from_access-IsSafe}
use nk.Tests.Data.{message}

from_access-IsSafe_example : All IsSafe (from_access message).targets
from_access-IsSafe_example = from_access-IsSafe message
