-- ===== src/Life/Own.antt =====
-- The worker's own writes and its queue.
use cf_edge_operator.Platform.Env.{Env}
