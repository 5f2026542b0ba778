-- ===== src/Error/Transport.antt =====
-- siffleux/src/common/error.rs: the enum `Error`, and the errors of the transport library as far
-- as the code tells them apart. A variant that no `match` of the code names is `other`, with a
-- number that stands for it and its contents; so is what is boxed without being looked into.
use siffleux.Prelude.{ℕ, String}
use siffleux.Ids.Names.{IngressId, EgressId}

-- quinn::ConnectionError: an application close has an error code and a reason.
pub data ConnectionError : Type 0 where
  application_closed : ℕ → String → ConnectionError
  transport_error : ℕ → ConnectionError
  locally_closed : ConnectionError
  other : ℕ → ConnectionError

-- quinn::ReadError
pub data ReadError : Type 0 where
  connection_lost : ConnectionError → ReadError
  other : ℕ → ReadError

-- quinn::WriteError
pub data WriteError : Type 0 where
  connection_lost : ConnectionError → WriteError
  other : ℕ → WriteError

-- quinn::ReadExactError
pub data ReadExactError : Type 0 where
  read_error : ReadError → ReadExactError
  other : ℕ → ReadExactError

-- quinn::ReadToEndError
pub data ReadToEndError : Type 0 where
  read : ReadError → ReadToEndError
  other : ℕ → ReadToEndError

-- std::io::Error, by what `downcast` finds inside.
pub data IoError : Type 0 where
  wraps_write : WriteError → IoError
  wraps_read : ReadError → IoError
  plain : ℕ → IoError

mutual
  pub data Error : Type 0 where
    frame_not_received_on_time : String → Error
    rejected_ingress_id : Error
    rejected_auth_key : Error
    unexpected_frame_received : String → Error
    unknown : Cause → Error
    auth_frame_not_received : Error
    connection_closed : Error
    closed_tunnel : Error
    closed_stream : Error
    egress_already_started : Error
    egress_not_started : Error
    ingress_no_tunnel_connected : Error
    ingress_already_listening : Error
    ingress_not_listening : Error
    invalid_auth_key : String → Error
    invalid_ingress_id : String → Error
    invalid_egress_id : String → Error
    invalid_server_id : String → Error
    invalid_tunnel_name : String → Error
    incompatible_version : ℕ → ℕ → Error
    server_already_listening : Error
    server_not_listening : Error
    ingress_id_already_assigned : IngressId → Error
    egress_id_already_assigned : EgressId → Error
    tls : Cause → Error
    io : Cause → Error
    poison_lock : String → Error

  -- What a `Box<dyn std::error::Error>` holds.
  pub data Cause : Type 0 where
    read_exact_cause : ReadExactError → Cause
    read_cause : ReadError → Cause
    read_to_end_cause : ReadToEndError → Cause
    write_cause : WriteError → Cause
    connect_cause : ℕ → Cause
    rustls_cause : ℕ → Cause
    cipher_suite_cause : Cause
    connection_cause : ConnectionError → Cause
    transport_cause : ℕ → Cause
    utf8_cause : Cause
    io_cause : ℕ → Cause
    uuid_cause : Cause
    join_cause : ℕ → Cause
    error_cause : Error → Cause
