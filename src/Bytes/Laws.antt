-- ===== src/Bytes/Laws.antt =====
-- What a reader makes of bytes that a writer has written.
use siffleux.Prelude.{
  ℕ, ◌/◌, ◌%◌, ◌<◌, ◌≡◌, List, ◌∷◌, ◌++◌, arith, length, ltb-false, lt→ltb, length-append,
  take-append, drop-append,
}
use siffleux.Error.{ok, panic}
use siffleux.Bytes.{split_to, get_u16, advance}

-- Splitting off as many bytes as were put first gives them back.
pub split_to-append : (xs rest : List ℕ) → split_to (length xs) (xs ++ rest) ≡ (ok xs, rest)
unfolding split_to
split_to-append xs rest =
    rw (ltb-false (length (xs ++ rest)) (length xs) (omega (arith, length-append xs rest)))
      (rw (take-append xs rest, drop-append xs rest))

pub split_to-panic : (n : ℕ) (src : List ℕ) → length src < n → split_to n src ≡ (panic, src)
unfolding split_to
split_to-panic n src h = rw (lt→ltb (length src) n h)

pub get_u16-put : (n : ℕ) (rest : List ℕ) → get_u16 (n / 256 ∷ n % 256 ∷ rest) ≡ (ok n, rest)
unfolding get_u16
get_u16-put n rest = ground arith

pub advance_3 : (a b c : ℕ) (src : List ℕ) → advance 3 (a ∷ b ∷ c ∷ src) ≡ (ok tt, src)
unfolding advance
advance_3 a b c src = ground arith

pub advance_1 : (a : ℕ) (src : List ℕ) → advance 1 (a ∷ src) ≡ (ok tt, src)
unfolding advance
advance_1 a src = ground arith

pub split_to-length :
    (n : ℕ) (xs rest : List ℕ) → n ≡ length xs → split_to n (xs ++ rest) ≡ (ok xs, rest)
split_to-length n xs rest e = rw e (split_to-append xs rest)
