-- ===== src/Ids.antt =====
-- Auth keys and the ids of servers, ingresses and egresses.
pub mod Names
pub mod Utf8
pub mod AuthKey
pub mod ServerId
pub mod IngressId
pub mod EgressId
