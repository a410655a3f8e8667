-- ===== src/Controllers/Advance.antt =====
-- ApplyProfiles: an evaluation with no failure moves each profile by its own result.
use maintenance_controller.World.{World}
use maintenance_controller.State.Data.{Data}
