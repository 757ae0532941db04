-- ===== src/Zone/Retries.antt =====
-- The failures of the worker, which returns no error for them: the zone controller sends the
-- resource again.
use cf_edge_operator.Prelude.Assoc
use cf_edge_operator.Platform.Env.{Env}
