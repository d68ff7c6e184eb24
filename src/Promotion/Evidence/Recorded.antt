-- ===== src/Promotion/Evidence/Recorded.antt =====
-- A pair whose two outcomes were recorded, as `verify_completed_pair` sees it.
use alric_containers_image_b.Promotion.Evidence.{Evidence}
