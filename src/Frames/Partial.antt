-- ===== src/Frames/Partial.antt =====
-- siffleux/src/common/frames/v1.rs: the decoder on a buffer that holds only a part of a frame, or
-- bytes that are no frame.
use siffleux.Prelude.{
  ℕ, suc, ◌+◌, ◌*◌, ◌≤◌, ◌<◌, ◌≡◌, ◌≢◌, ◌⊎◌, inl, inr, refl, List, [], ◌∷◌, Option, none, arith,
  length, lt→ltb, ltb-false,
}
use siffleux.Error.{ok, panic}
use siffleux.Bytes.{Reader, index, get_u8}
use siffleux.Bytes.Laws.{split_to-panic, advance_3}
use siffleux.Frames.Types.{FrameV1, auth_type, authenticated_type, ping_type, pong_type}
use siffleux.Frames.Codec.{decode, decode_frame, with_payload, payload_length_at, decode_auth}
use siffleux.Frames.RoundTrip.{decode-cons}

-- The two frames with a payload.
abbrev pub HasPayload : ℕ → Type 0
HasPayload t = (t ≡ auth_type) ⊎ (t ≡ authenticated_type)

waits :
    (hi lo : ℕ) (src : List ℕ) (t n : ℕ) (arm : Reader (Option FrameV1))
    → n ≡ suc (suc (suc (length src)))
    → length src < hi * 256 + lo
    → with_payload n arm (t ∷ hi ∷ lo ∷ src) ≡ (ok none, t ∷ hi ∷ lo ∷ src)
unfolding with_payload payload_length_at index
waits hi lo src t n arm e h = rw (lt→ltb n (1 + 2 + (hi * 256 + lo)) (omega arith))

-- While fewer bytes are there than the header of a frame with a payload announces, and the
-- header itself is there, the decoder returns no frame and leaves the buffer as it is.
pub decode-incomplete :
    (t hi lo : ℕ) (src : List ℕ)
    → HasPayload t
    → length src < hi * 256 + lo
    → decode (t ∷ hi ∷ lo ∷ src) ≡ (ok none, t ∷ hi ∷ lo ∷ src)
unfolding decode_frame
decode-incomplete t hi lo src (inl e) h =
    rw (e, decode-cons) (waits hi lo src auth_type _ decode_auth refl h)
decode-incomplete t hi lo src (inr e) h =
    rw (e, decode-cons) (waits hi lo src authenticated_type _ _ refl h)

-- With one or two bytes there of a frame with a payload, the decoder panics: it reads the length
-- before it tests that it is there.
pub decode-short_header :
    (t : ℕ) (src : List ℕ) → HasPayload t → length src ≤ 1 → (decode (t ∷ src)).0 ≡ panic
unfolding decode_frame with_payload payload_length_at index
decode-short_header t [] (inl e) h = rw (e, decode-cons)
decode-short_header t [] (inr e) h = rw (e, decode-cons)
decode-short_header t (b ∷ []) (inl e) h = rw (e, decode-cons)
decode-short_header t (b ∷ []) (inr e) h = rw (e, decode-cons)
decode-short_header t (b ∷ c ∷ src) k h = absurd (omega arith)

-- A buffer that starts with a type byte that no frame has is left as it is, so nothing behind that
-- byte is ever decoded.
pub decode-unknown_type :
    (t : ℕ) (src : List ℕ)
    → t ≢ auth_type
    → t ≢ authenticated_type
    → t ≢ ping_type
    → t ≢ pong_type
    → decode (t ∷ src) ≡ (ok none, t ∷ src)
unfolding decode_frame
decode-unknown_type t src h0 h1 h3 h4 = rw decode-cons (ground arith)

-- An auth frame whose key announces more bytes than there are makes the decoder panic, although
-- the payload that the header announces is complete.
pub decode-long_key :
    (hi lo key_len : ℕ) (src : List ℕ)
    → hi * 256 + lo ≤ suc (length src)
    → length src < key_len
    → (decode (auth_type ∷ hi ∷ lo ∷ key_len ∷ src)).0 ≡ panic
unfolding decode_frame with_payload payload_length_at index decode_auth get_u8
decode-long_key hi lo key_len src h k = rw decode-cons (
    rw (ltb-false (suc (suc (suc (suc (length src))))) (1 + 2 + (hi * 256 + lo)) (omega arith))
      (rw advance_3 (rw (split_to-panic key_len src k))))
