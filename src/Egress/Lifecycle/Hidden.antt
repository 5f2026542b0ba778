-- ===== src/Egress/Lifecycle/Hidden.antt =====
-- client/egress/tcp_egress.rs and client/egress/udp_egress.rs: a start that overlaps with a stop.
use siffleux.Egress.Lifecycle.{Egress}
use siffleux.Egress.Lifecycle.Calls.{Calls}
