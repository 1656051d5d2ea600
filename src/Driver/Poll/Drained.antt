-- ===== src/Driver/Poll/Drained.antt =====
-- What one call of the poll function leaves behind.
use cros_rt.Driver.SkbQueue.{SkbQueue}
