-- ===== src/Protocol/Copying/Clean.antt =====
-- siffleux/src/common/protocols/v1.rs: two directions that end without an error.
use siffleux.Prelude.{◌≡◌, false, [], ◌∷◌}
use siffleux.Protocol.Copying.{
  Streaming, CopyEvent, is_cancelled, finish, tcp_read_closed, tcp_to_tunnel_failed,
  tcp_to_tunnel_sees_token, tunnel_read_closed, tunnel_to_tcp_failed, tunnel_to_tcp_sees_token,
  parent_token,
}
use siffleux.Protocol.Copying.Closing.{IsClosedOnce}

-- Neither a failure nor the token above.
abbrev pub IsClean : CopyEvent → Type 0
IsClean tcp_read_closed = Unit
IsClean tcp_to_tunnel_failed = ⊥
IsClean tcp_to_tunnel_sees_token = Unit
IsClean tunnel_read_closed = Unit
IsClean tunnel_to_tcp_failed = ⊥
IsClean tunnel_to_tcp_sees_token = Unit
IsClean parent_token = ⊥

-- Nothing is cancelled, and the stream of the tunnel was finished if its task has returned.
pub record IsUnbroken (s : Streaming) : Type 0 where
  pub live : is_cancelled s ≡ false
  pub written : IsClosedOnce (finish ∷ []) (finish ∷ []) s.tcp_to_tunnel
