-- ===== src/Examples/Wire.antt =====
-- Frames and datagrams at concrete inputs.
use siffleux.Prelude.{
  ◌⊎◌, ◌<◌, ◌≤◌, false, ◌+◌, true, ℕ, ◌≡◌, [], ◌∷◌, ◌++◌, arith, some, inl, refl,
}
use siffleux.Error.{ok, panic}
use siffleux.Frames.{auth, decode, encode}
use siffleux.Frames.RoundTrip.{decode-encode}
use siffleux.Frames.Partial.{decode-short_header, decode-long_key}
use siffleux.Egress.Backoff.{delay_bounds, delay_overflows, reconnect_delay}
use siffleux.Bytes.{get_u8, get_u16, split_to}
use siffleux.Frames.{extract_origin, extract_ipv4, extract_origin_socket_addr_from_datagram}
use siffleux.Ingress.Udp.{
  tunnel_turn, datagram, TunnelEvent, tunnel_run, reads_on, deliver, after_tunnel_turn, panicked,
}
use siffleux.Ingress.Udp.Traffic.{short_datagram_kills}
use siffleux.Examples.Data.{key, web, key-IsValid, web-IsValid}

decode-encode_example :
    decode (encode (auth key web) [] ++ (3 ∷ [])) ≡ (ok (some (auth key web)), 3 ∷ [])
decode-encode_example = decode-encode (auth key web) (3 ∷ []) (key-IsValid, web-IsValid)

decode-short_header_example : (decode (0 ∷ 0 ∷ [])).0 ≡ panic
decode-short_header_example = decode-short_header 0 (0 ∷ []) (inl refl) (omega arith)

decode-long_key_example : (decode (0 ∷ 0 ∷ 2 ∷ 200 ∷ 7 ∷ [])).0 ≡ panic
decode-long_key_example = decode-long_key 0 2 200 (7 ∷ []) (omega arith) (omega arith)

abbrev one_answer : TunnelEvent
one_answer = datagram (0 ∷ 127 ∷ 0 ∷ 0 ∷ 1 ∷ 31 ∷ 144 ∷ 9 ∷ [])

reads_one : (tunnel_run (one_answer ∷ [])).end ≡ reads_on
unfolding tunnel_run tunnel_turn deliver after_tunnel_turn extract_origin_socket_addr_from_datagram
    extract_origin extract_ipv4 get_u8 get_u16 split_to
reads_one = refl

short_datagram_kills_example :
    tunnel_run (one_answer ∷ (datagram (0 ∷ 127 ∷ []) ∷ (one_answer ∷ [])))
    ≡ record { sent = (tunnel_run (one_answer ∷ [])).sent; end = panicked }
short_datagram_kills_example =
    short_datagram_kills (one_answer ∷ []) (0 ∷ 127 ∷ []) (one_answer ∷ [])
      (inl (refl, omega arith)) reads_one

delay_bounds_example :
    (d e : ℕ) × (reconnect_delay true 3 ≡ ok d)
    × (reconnect_delay true 12 ≡ ok e)
    × (100 ≤ d)
    × (d ≤ e)
    × (e ≤ 30000)
    × ((3 < 9) ⊎ (d ≡ 30000))
delay_bounds_example = delay_bounds true 3 12 (omega arith) (omega arith)

delay_overflows_example :
    (reconnect_delay true (1 + 58) ≡ panic) × (reconnect_delay false (1 + 62) ≡ ok 0)
delay_overflows_example = delay_overflows 1
