-- ===== src/Bytes.antt =====
-- The `bytes` buffers as the code uses them: a buffer is the list of its unread bytes, reading
-- takes from the front and panics when there is too little, writing appends at the back.
pub mod Laws
use siffleux.Prelude.{
  ℕ, ◌+◌, ◌*◌, ◌/◌, ◌%◌, ◌<◌, Bool, List, [], ◌∷◌, ◌++◌, Option, none, some, length, take, drop,
  get_elem?, ltb, if◌then◌else◌,
}
use siffleux.Error.{Result, ok, err, panic}

-- A reader takes a buffer and returns its result with what is left unread.
abbrev pub Reader {ℓ} : Type ℓ → Type ℓ
Reader A = List ℕ → Result A × List ℕ

module _ {ℓ} {A : Type ℓ} where
  abbrev pub pure : A → Reader A
  pure a src = (ok a, src)

  -- `?` on a result: the bytes read so far stay read.
  abbrev pub lift : Result A → Reader A
  lift r src = (r, src)

  abbrev pub fail : Reader A
  fail src = (panic, src)

module _ {ℓ κ} {A : Type ℓ} {B : Type κ} where
  abbrev pub continue : Result A → (A → Reader B) → Reader B
  continue (ok a) f src = f a src
  continue (err e) f src = (err e, src)
  continue panic f src = (panic, src)

  infixl 10 ◌>>=◌ ◌>>◌
  abbrev pub ◌>>=◌ : Reader A → (A → Reader B) → Reader B
  ◌>>=◌ m f src = continue (m src).0 f (m src).1

  abbrev pub ◌>>◌ : Reader A → Reader B → Reader B
  m >> n = m >>= λ _. n

-- `len()`
unfoldable pub remaining : Reader ℕ
remaining src = (ok (length src), src)

-- `src[i]`
unfoldable pub index : ℕ → Reader ℕ
index i src = elim (get_elem? src i) [ none ↦ (panic, src) | some b ↦ (ok b, src) ]

unfoldable pub get_u8 : Reader ℕ
get_u8 [] = (panic, [])
get_u8 (b ∷ rest) = (ok b, rest)

-- Two bytes, the high one first.
unfoldable pub get_u16 : Reader ℕ
get_u16 (hi ∷ lo ∷ rest) = (ok (hi * 256 + lo), rest)
get_u16 src = (panic, src)

unfoldable pub split_to : ℕ → Reader (List ℕ)
split_to n src = if ltb (length src) n then (panic, src) else (ok (take n src), drop n src)

unfoldable pub advance : ℕ → Reader (Unit {0})
advance n src = if ltb (length src) n then (panic, src) else (ok tt, drop n src)

unfoldable pub put_u8 : ℕ → List ℕ → List ℕ
put_u8 b dst = dst ++ (b ∷ [])

unfoldable pub put_u16 : ℕ → List ℕ → List ℕ
put_u16 n dst = dst ++ (n / 256 ∷ n % 256 ∷ [])

unfoldable pub put_slice : List ℕ → List ℕ → List ℕ
put_slice slice dst = dst ++ slice
