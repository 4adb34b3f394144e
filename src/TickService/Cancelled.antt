-- ===== src/TickService/Cancelled.antt =====
-- When the loop over the waiting dungeons cancels one.
use dnf_mock_server_client.Prelude.{nat_eq}
use dnf_mock_server_client.EnemyCatalog.{EnemyCatalog}
