-- ===== src/Ids/Utf8.antt =====
-- `std::str::from_utf8`: which bytes are well-formed UTF-8 (the standard's table of byte ranges).
use siffleux.Prelude.{
  ℕ, zero, suc, ◌<◌, ◌≡◌, refl, Bool, true, false, ◌&&◌, List, [], ◌∷◌, arith, leb, ltb, ◌==◌,
  if◌then◌else◌, All,
}

-- Between two characters, `k + 1` bytes before the end of one with the next byte in a range, or
-- past an error.
pub data Utf8State : Type 0 where
  start : Utf8State
  inside : ℕ → ℕ → ℕ → Utf8State
  bad : Utf8State

within : ℕ → ℕ → ℕ → Bool
within lo hi b = leb lo b && leb b hi

lead : ℕ → Utf8State
unfolding within
lead b =
    if ltb b 0x80
    then start
    else if within 0xc2 0xdf b
    then inside 0 0x80 0xbf
    else if b == 0xe0
    then inside 1 0xa0 0xbf
    else if b == 0xed
    then inside 1 0x80 0x9f
    else if within 0xe1 0xef b
    then inside 1 0x80 0xbf
    else if b == 0xf0
    then inside 2 0x90 0xbf
    else if within 0xf1 0xf3 b
    then inside 2 0x80 0xbf
    else if b == 0xf4
    then inside 2 0x80 0x8f
    else bad

utf8_step : Utf8State → ℕ → Utf8State
unfolding lead
utf8_step start b = lead b
utf8_step (inside zero lo hi) b = if within lo hi b then start else bad
utf8_step (inside (suc k) lo hi) b = if within lo hi b then inside k 0x80 0xbf else bad
utf8_step bad b = bad

utf8_from : Utf8State → List ℕ → Bool
unfolding utf8_step
utf8_from start [] = true
utf8_from (inside k lo hi) [] = false
utf8_from bad [] = false
utf8_from s (b ∷ rest) = utf8_from (utf8_step s b) rest

unfoldable pub is_utf8 : List ℕ → Bool
unfolding utf8_from
is_utf8 bytes = utf8_from start bytes

-- ASCII bytes are well-formed.
pub ascii-is_utf8 : (bytes : List ℕ) → All (λ b. b < 0x80) bytes → is_utf8 bytes ≡ true
unfolding is_utf8
ascii-is_utf8 [] h = refl
ascii-is_utf8 (b ∷ rest) h = let e : lead b ≡ start = ground arith in rw e (ascii-is_utf8 rest h.1)

euro : is_utf8 (0xe2 ∷ 0x82 ∷ 0xac ∷ []) ≡ true
unfolding is_utf8
euro = refl

surrogate : is_utf8 (0xed ∷ 0xa0 ∷ 0x80 ∷ []) ≡ false
unfolding is_utf8
surrogate = refl
