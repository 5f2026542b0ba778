-- ===== src/Egress/Trait.antt =====
-- siffleux/src/client/egress/egress.rs: the trait `Egress`, as an interface over the type of the egresses. A
-- method that changes the shared object returns the changed one. What its task publishes is not part of it.
use siffleux.Prelude.{ℕ, ◌≡◌, arith}
use siffleux.Error.{Result}
use siffleux.Ids.Names.{EgressId, IngressId}
use siffleux.Egress.Tunnelling.{State}
use siffleux.Egress.Lifecycle
use siffleux.Egress.Lifecycle.{Egress}

-- `start` takes the token of the new task, and `stop` what joining the old task returns.
pub record EgressTrait (E : Type 0) : Type 0 where
  pub id : E → EgressId
  pub ingress_id : E → IngressId
  pub state : E → State
  pub start : ℕ → E → Result (Unit {0}) × E
  pub stop : Result (Unit {0}) → E → Result (Unit {0}) × E
  -- The id is fixed when the egress is made.
  pub id-start : (token : ℕ) (e : E) → id (start token e).1 ≡ id e
  pub id-stop : (joined : Result (Unit {0})) (e : E) → id (stop joined e).1 ≡ id e

pub id-start : (token : ℕ) (e : Egress) → (Lifecycle.start token e).1.id ≡ e.id
unfolding Lifecycle.start
id-start token e = ground arith

pub id-stop : (joined : Result (Unit {0})) (e : Egress) → (Lifecycle.stop joined e).1.id ≡ e.id
unfolding Lifecycle.stop Lifecycle.stop_take Lifecycle.finish_taken Lifecycle.stop_finish
id-stop joined e = ground arith

-- `impl Egress for TcpEgress` and `impl Egress for UdpEgress`
instance abbrev pub lifecycle_egress : EgressTrait Egress
lifecycle_egress = record {
  id = λ e. e.id;
  ingress_id = λ e. e.ingress_id;
  state = λ e. e.state;
  start = Lifecycle.start;
  stop = Lifecycle.stop;
  id-start = id-start;
  id-stop = id-stop;
}
