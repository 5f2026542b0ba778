-- ===== src/Frames/RoundTrip.antt =====
-- siffleux/src/common/frames/v1.rs: what the decoder makes of an encoded frame.
use siffleux.Prelude.{
  suc, ◌*◌, ◌/◌, ltb-false, sym, ℕ, ◌+◌, ◌%◌, ◌^◌, ◌≤◌, ◌≡◌, List, [], ◌∷◌, ◌++◌, Option, some,
  arith, length, append_assoc, ◌∙◌, length-append,
}
use siffleux.Error.{ok}
use siffleux.Bytes.{Reader, get_u8, index, remaining}
use siffleux.Bytes.Laws.{split_to-length, advance_1, advance_3}
use siffleux.Ids.Names.{AuthKey, IngressId, ServerId}
use siffleux.Ids.AuthKey
use siffleux.Ids.IngressId
use siffleux.Ids.ServerId
use siffleux.Frames.Types.{
  FrameV1, Uuid, auth_type, authenticated_type, auth, authenticated, ping, pong,
}
use siffleux.Frames.Codec.{
  uuid_from_slice, encode, decode, decode_auth, decode_authenticated, decode_frame, with_payload,
  payload_length_at,
}

-- A frame whose parts the constructors of the ids let through.
abbrev pub IsValid : FrameV1 → Type 0
IsValid (auth k i) = AuthKey.IsValid k × IngressId.IsValid i
IsValid (authenticated t s) = (length t ≡ 16) × ServerId.IsValid s
IsValid ping = Unit
IsValid pong = Unit

pub decode-cons :
    (b : ℕ) (src : List ℕ) → decode (b ∷ src) ≡ decode_frame (suc (length src)) b (b ∷ src)
unfolding decode remaining index
decode-cons b src = ground arith

-- With the payload there, its arm runs on the buffer as it stands.
with_payload-arm :
    (t n : ℕ) (src : List ℕ) (arm : Reader (Option FrameV1))
    → n ≤ length src
    → with_payload (suc (suc (suc (length src)))) arm (t ∷ n / 256 ∷ n % 256 ∷ src)
      ≡ arm (t ∷ n / 256 ∷ n % 256 ∷ src)
unfolding with_payload payload_length_at index
with_payload-arm t n src arm h =
    rw (ltb-false (suc (suc (suc (length src)))) (1 + 2 + (n / 256 * 256 + n % 256)) (omega arith))

decode_auth-append :
    (t hi lo : ℕ) (k : AuthKey) (i : IngressId) (rest : List ℕ)
    → AuthKey.IsValid k
    → IngressId.IsValid i
    → decode_auth (
        t
        ∷ hi
        ∷ lo
        ∷ length k.value % 256
        ∷ (k.value ++ (length i.value % 256 ∷ (i.value ++ rest))))
      ≡ (ok (some (auth k i)), rest)
unfolding decode_auth get_u8
decode_auth-append t hi lo k i rest vk vi = rw advance_3 (
    rw
      (split_to-length (length k.value % 256) k.value (length i.value % 256 ∷ (i.value ++ rest))
        (omega arith))
      (rw (split_to-length (length i.value % 256) i.value rest (omega arith))
        (rw (AuthKey.from_bytes-value k vk) (rw (IngressId.from_bytes-value i vi)))))

decode_authenticated-append :
    (ty hi lo : ℕ) (t : Uuid) (s : ServerId) (rest : List ℕ)
    → length t ≡ 16
    → ServerId.IsValid s
    → decode_authenticated (ty ∷ hi ∷ lo ∷ length s.value % 256 ∷ (s.value ++ (t ++ rest)))
      ≡ (ok (some (authenticated t s)), rest)
unfolding decode_authenticated get_u8
decode_authenticated-append ty hi lo t s rest ht vs = rw advance_3 (
    rw (split_to-length (length s.value % 256) s.value (t ++ rest) (omega arith)) (
      rw (split_to-length 16 t rest (sym ht))
        (rw (ServerId.from_bytes-value s vs) (unfold uuid_from_slice in ground arith))))

pub encode-auth :
    (k : AuthKey) (i : IngressId) (rest : List ℕ)
    → encode (auth k i) [] ++ rest
      ≡ auth_type
        ∷ (1 + length k.value + (1 + length i.value)) % 2 ^ 16 / 256
        ∷ (1 + length k.value + (1 + length i.value)) % 2 ^ 16 % 256
        ∷ length k.value % 256
        ∷ (k.value ++ (length i.value % 256 ∷ (i.value ++ rest)))
unfolding encode
encode-auth k i rest = simp append_assoc

pub encode-authenticated :
    (t : Uuid) (s : ServerId) (rest : List ℕ)
    → encode (authenticated t s) [] ++ rest
      ≡ authenticated_type
        ∷ (1 + length s.value + 16) % 2 ^ 16 / 256
        ∷ (1 + length s.value + 16) % 2 ^ 16 % 256
        ∷ length s.value % 256
        ∷ (s.value ++ (t ++ rest))
unfolding encode
encode-authenticated t s rest = simp append_assoc

-- A valid frame, encoded and followed by any bytes, is decoded to itself, and just its own bytes
-- are taken off the buffer.
pub decode-encode :
    (f : FrameV1) (rest : List ℕ) → IsValid f → decode (encode f [] ++ rest) ≡ (ok (some f), rest)
unfolding decode_frame
decode-encode (auth k i) rest h =
    rw (encode-auth, decode-cons)
      (with_payload-arm auth_type ((1 + length k.value + (1 + length i.value)) % 2 ^ 16)
          (length k.value % 256 ∷ (k.value ++ (length i.value % 256 ∷ (i.value ++ rest))))
          decode_auth
          (omega (
            arith,
            length-append k.value (length i.value % 256 ∷ (i.value ++ rest)),
            length-append i.value rest,
          ))
        ∙ decode_auth-append auth_type _ _ k i rest h.0 h.1)
decode-encode (authenticated t s) rest h =
    rw (encode-authenticated, decode-cons)
      (with_payload-arm authenticated_type ((1 + length s.value + 16) % 2 ^ 16)
          (length s.value % 256 ∷ (s.value ++ (t ++ rest))) decode_authenticated
          (omega (arith, h.0, length-append s.value (t ++ rest), length-append t rest))
        ∙ decode_authenticated-append authenticated_type _ _ t s rest h.0 h.1)
decode-encode ping rest h = unfold encode in rw decode-cons (rw advance_1)
decode-encode pong rest h = unfold encode in rw decode-cons (rw advance_1)
