-- ===== src/Frames/Codec.antt =====
-- siffleux/src/common/frames/v1.rs: `Encoder` and `Decoder` of `CodecV1`.
use siffleux.Prelude.{
  ℕ, ◌+◌, ◌*◌, ◌%◌, ◌^◌, List, ◌==◌, Option, none, some, length, ltb, if◌then◌else◌,
}
use siffleux.Bytes.{
  Reader, pure, lift, ◌>>=◌, ◌>>◌, remaining, index, get_u8, split_to, advance, put_u8, put_u16,
  put_slice,
}
use siffleux.Error.{Result, ok, err}
use siffleux.Error.Convert.{from_uuid_error}
use siffleux.Ids.AuthKey
use siffleux.Ids.IngressId
use siffleux.Ids.ServerId
use siffleux.Frames.Types.{
  FrameV1, Uuid, auth, authenticated, ping, pong, auth_type, authenticated_type, ping_type,
  pong_type,
}

-- `Encoder::encode`, which always returns `Ok(())`: `dst` with the frame behind it.
unfoldable pub encode : FrameV1 → List ℕ → List ℕ
unfolding put_u8 put_u16 put_slice AuthKey.to_str IngressId.to_str ServerId.to_str
encode (auth auth_key ingress_id) dst =
    let auth_key_str = AuthKey.to_str auth_key in
    let ingress_id_str = IngressId.to_str ingress_id in
    let payload_length = (1 + length auth_key_str) + (1 + length ingress_id_str) in
    let dst_1 = put_u8 auth_type dst in
    let dst_2 = put_u16 (payload_length % 2 ^ 16) dst_1 in
    let dst_3 = put_u8 (length auth_key_str % 2 ^ 8) dst_2 in
    let dst_4 = put_slice auth_key_str dst_3 in
    let dst_5 = put_u8 (length ingress_id_str % 2 ^ 8) dst_4 in put_slice ingress_id_str dst_5
encode (authenticated tunnel_id server_id) dst =
    let server_id_str = ServerId.to_str server_id in
    let payload_length = (1 + length server_id_str) + 16 in
    let dst_1 = put_u8 authenticated_type dst in
    let dst_2 = put_u16 (payload_length % 2 ^ 16) dst_1 in
    let dst_3 = put_u8 (length server_id_str % 2 ^ 8) dst_2 in
    let dst_4 = put_slice server_id_str dst_3 in put_slice tunnel_id dst_4
encode ping dst = put_u8 ping_type dst
encode pong dst = put_u8 pong_type dst

-- `Uuid::from_slice`: a slice of any other length is an error.
unfoldable pub uuid_from_slice : List ℕ → Result Uuid
uuid_from_slice bytes = if length bytes == 16 then ok bytes else err from_uuid_error

-- `u16::from_be_bytes([src[1], src[2]])`
unfoldable pub payload_length_at : Reader ℕ
payload_length_at = do hi ← index 1; lo ← index 2; pure (hi * 256 + lo)

-- The arm of `AUTH_TYPE` once the payload is there.
unfoldable pub decode_auth : Reader (Option FrameV1)
decode_auth = do
  advance 3
  auth_key_len ← get_u8
  auth_key_bytes ← split_to auth_key_len
  ingress_id_len ← get_u8
  ingress_id_bytes ← split_to ingress_id_len
  auth_key ← lift (AuthKey.from_bytes auth_key_bytes)
  ingress_id ← lift (IngressId.from_bytes ingress_id_bytes)
  pure (some (auth auth_key ingress_id))

-- The arm of `AUTHENTICATED_TYPE` once the payload is there.
unfoldable pub decode_authenticated : Reader (Option FrameV1)
decode_authenticated = do
  advance 3
  server_id_len ← get_u8
  server_id_bytes ← split_to server_id_len
  tunnel_id_bytes ← split_to 16
  server_id ← lift (ServerId.from_bytes server_id_bytes)
  tunnel_id ← lift (uuid_from_slice tunnel_id_bytes)
  pure (some (authenticated tunnel_id server_id))

-- `return Ok(None)` while the payload is incomplete.
unfoldable pub with_payload : ℕ → Reader (Option FrameV1) → Reader (Option FrameV1)
with_payload src_len arm = do
  payload_length ← payload_length_at
  if ltb src_len (1 + 2 + payload_length) then pure none else arm

-- A type byte that no arm names is left where it is.
unfoldable pub decode_frame : ℕ → ℕ → Reader (Option FrameV1)
decode_frame src_len frame_type =
    if frame_type == auth_type
    then with_payload src_len decode_auth
    else if frame_type == authenticated_type
    then with_payload src_len decode_authenticated
    else if frame_type == ping_type
    then advance 1 >> pure (some ping)
    else if frame_type == pong_type
    then advance 1 >> pure (some pong)
    else pure none

-- `Decoder::decode`
unfoldable pub decode : Reader (Option FrameV1)
decode = do
  src_len ← remaining
  if src_len == 0 then pure none else do frame_type ← index 0; decode_frame src_len frame_type
