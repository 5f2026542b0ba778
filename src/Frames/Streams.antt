-- ===== src/Frames/Streams.antt =====
-- siffleux/src/common/frames/v1.rs: many frames in one buffer, the last of which has not arrived as a whole. A framed
-- stream calls the encoder for each frame and the decoder until it returns none.
use siffleux.Prelude.{
  ℕ, zero, suc, ◌%◌, ◌+◌, ◌*◌, ◌≤◌, ◌≡◌, ◌⊎◌, inl, inr, refl, sym, ap, ◌∙◌, none, Option, some,
  List, [], ◌∷◌, ◌++◌, All, arith, length, length-append, append_assoc, append-nil,
}
use siffleux.Error.{◌>>=◌, Result, ok, err, panic}
use siffleux.Frames.Types.{
  pong_type, ping_type, FrameV1, auth, authenticated, ping, pong, auth_type, authenticated_type,
}
use siffleux.Bytes.{remaining}
use siffleux.Frames.Codec.{encode, decode}
use siffleux.Frames.RoundTrip.{IsValid, decode-encode, encode-auth, encode-authenticated}
use siffleux.Frames.Partial.{HasPayload, decode-incomplete}

-- The encoder for each frame, into one buffer.
unfoldable pub encode_all : List FrameV1 → List ℕ → List ℕ
encode_all [] dst = dst
encode_all (f ∷ frames) dst = encode_all frames (encode f dst)

unfoldable pub decoded_then :
    Result (Option FrameV1) × List ℕ
    → (List ℕ → Result (List FrameV1) × List ℕ)
    → Result (List FrameV1) × List ℕ
decoded_then (ok (some f), src) more =
    let (rest, src') = more src in (rest >>= λ frames. ok (f ∷ frames), src')
decoded_then (ok none, src) more = (ok [], src)
decoded_then (err e, src) more = (err e, src)
decoded_then (panic, src) more = (panic, src)

-- The decoder until it returns none: what it gave, and what it left. The fuel bounds the calls.
unfoldable pub decode_all : ℕ → List ℕ → Result (List FrameV1) × List ℕ
unfolding decoded_then
decode_all zero src = (ok [], src)
decode_all (suc fuel) src = decoded_then (decode src) (decode_all fuel)

encode-append : (f : FrameV1) (dst : List ℕ) → encode f dst ≡ dst ++ encode f []
unfolding encode
encode-append (auth k i) dst = simp append_assoc
encode-append (authenticated t s) dst = simp append_assoc
encode-append ping dst = refl
encode-append pong dst = refl

encode_all-append :
    (frames : List FrameV1) (dst : List ℕ) → encode_all frames dst ≡ dst ++ encode_all frames []
unfolding encode_all
encode_all-append [] dst = sym (append-nil dst)
encode_all-append (f ∷ frames) dst =
    encode_all-append frames (encode f dst)
    ∙ ap (λ l. l ++ encode_all frames []) (encode-append f dst)
    ∙ append_assoc dst (encode f []) (encode_all frames [])
    ∙ ap (λ l. dst ++ l) (sym (encode_all-append frames (encode f [])))

-- Bytes that end inside a frame: none of its bytes, or its header at least.
pub record IsPart (f : FrameV1) (front : List ℕ) : Type 0 where
  pub back : List ℕ
  pub whole : front ++ back ≡ encode f []
  pub missing : 1 ≤ length back
  pub header : (length front ≡ 0) ⊎ (3 ≤ length front)

header-waits :
    (t hi lo : ℕ) (payload front back : List ℕ)
    → HasPayload t
    → front ++ back ≡ t ∷ hi ∷ lo ∷ payload
    → length payload ≤ hi * 256 + lo
    → 1 ≤ length back
    → (length front ≡ 0) ⊎ (3 ≤ length front)
    → decode front ≡ (ok none, front)
unfolding decode remaining
header-waits t hi lo payload [] back k e h m c = refl
header-waits t hi lo payload (a ∷ []) back k e h m c = absurd (ground arith)
header-waits t hi lo payload (a ∷ b ∷ []) back k e h m c = absurd (ground arith)
header-waits t hi lo payload (a ∷ b ∷ d ∷ src) back k e h m c =
    let p : a ≡ t = cc in
    let q : b ≡ hi = cc in
    let r : d ≡ lo = cc in
    let tail : src ++ back ≡ payload = cc in
    rw (p, q, r)
      (decode-incomplete t hi lo src k
        (omega (arith, length-append src back, ap (λ l. length l) tail, h, m)))

-- A frame of one byte has no part but the empty one.
one_byte-waits :
    (b : ℕ) (front back : List ℕ)
    → front ++ back ≡ b ∷ []
    → 1 ≤ length back
    → decode front ≡ (ok none, front)
unfolding decode remaining
one_byte-waits b [] back e m = refl
one_byte-waits b (a ∷ front) back e m =
    absurd (omega (arith, ap (λ l. length l) e, length-append front back, m))

pub part-waits :
    (f : FrameV1) (front : List ℕ) → IsValid f → IsPart f front → decode front ≡ (ok none, front)
part-waits (auth k i) front v p =
    header-waits auth_type _ _ _ front p.back (inl refl)
      (p.whole ∙ sym (append-nil (encode (auth k i) [])) ∙ encode-auth k i [])
      (omega (
        arith,
        v.0.fits,
        v.1.fits,
        length-append k.value (length i.value % 256 ∷ (i.value ++ [])),
        length-append i.value [],
      ))
      p.missing p.header
part-waits (authenticated t s) front v p =
    header-waits authenticated_type _ _ _ front p.back (inr refl)
      (p.whole ∙ sym (append-nil (encode (authenticated t s) [])) ∙ encode-authenticated t s [])
      (omega (arith, v.0, v.1.fits, length-append s.value (t ++ []), length-append t [])) p.missing
      p.header
part-waits ping front v p =
    one_byte-waits ping_type front p.back (unfold encode in p.whole) p.missing
part-waits pong front v p =
    one_byte-waits pong_type front p.back (unfold encode in p.whole) p.missing

-- Valid frames that were encoded into one buffer, with a part of one more valid frame behind them that ends inside its
-- payload or before its header: decoding until there is no frame gives just these frames, in their order, and leaves the
-- part as it is. As many calls as there are frames, and one more, are enough.
pub decode_all-encode_all :
    (fuel : ℕ) (frames : List FrameV1) (f : FrameV1) (front : List ℕ)
    → length frames + 1 ≤ fuel
    → All IsValid frames
    → IsValid f
    → IsPart f front
    → decode_all fuel (encode_all frames [] ++ front) ≡ (ok frames, front)
unfolding decode_all encode_all decoded_then
decode_all-encode_all zero frames f front enough all v p = absurd (omega (arith, enough))
decode_all-encode_all (suc fuel) [] f front enough all v p = rw (part-waits f front v p) refl
decode_all-encode_all (suc fuel) (g ∷ frames) f front enough all v p =
    rw
      (
        encode_all-append frames (encode g []),
        append_assoc,
        decode-encode g (encode_all frames [] ++ front) all.0,
      )
      (rw (decode_all-encode_all fuel frames f front (omega arith) all.1 v p) refl)
