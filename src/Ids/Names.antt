-- ===== src/Ids/Names.antt =====
-- The newtypes of common/auth_key.rs, server/server_id.rs, server/ingress/ingress_id.rs and
-- client/egress/egress_id.rs. A Rust `String` is the list of its UTF-8 bytes.
use siffleux.Prelude.{ℕ, ◌≡◌, ◌↔◌, true, List, arith, Eq, bytes_beq, bytes_beq_iff}

pub record AuthKey : Type 0 where
  pub value : List ℕ

pub record ServerId : Type 0 where
  pub value : List ℕ

pub record IngressId : Type 0 where
  pub value : List ℕ

pub record EgressId : Type 0 where
  pub value : List ℕ

pub auth_key_beq_iff : (a b : AuthKey) → (bytes_beq a.value b.value ≡ true) ↔ (a ≡ b)
auth_key_beq_iff a b = ground (arith, bytes_beq_iff a.value b.value)

pub ingress_id_beq_iff : (a b : IngressId) → (bytes_beq a.value b.value ≡ true) ↔ (a ≡ b)
ingress_id_beq_iff a b = ground (arith, bytes_beq_iff a.value b.value)

pub egress_id_beq_iff : (a b : EgressId) → (bytes_beq a.value b.value ≡ true) ↔ (a ≡ b)
egress_id_beq_iff a b = ground (arith, bytes_beq_iff a.value b.value)

-- `#[derive(PartialEq, Eq)]`
instance abbrev pub auth_key_eq : Eq AuthKey
auth_key_eq = record { beq = λ a b. bytes_beq a.value b.value; beq_iff = auth_key_beq_iff }

instance abbrev pub ingress_id_eq : Eq IngressId
ingress_id_eq = record { beq = λ a b. bytes_beq a.value b.value; beq_iff = ingress_id_beq_iff }

instance abbrev pub egress_id_eq : Eq EgressId
egress_id_eq = record { beq = λ a b. bytes_beq a.value b.value; beq_iff = egress_id_beq_iff }
