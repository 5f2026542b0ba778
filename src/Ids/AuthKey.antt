-- ===== src/Ids/AuthKey.antt =====
-- siffleux/src/common/auth_key.rs. A Rust `String` is the list of its UTF-8 bytes, and `len()` its length.
use siffleux.Prelude.{ℕ, ◌≤◌, ◌≡◌, true, List, arith, length, ltb, ◌==◌, if◌then◌else◌}
use siffleux.Ids.Names.{AuthKey}
use siffleux.Ids.Utf8.{is_utf8}
use siffleux.Error.{Result, ok, err, invalid_auth_key}

abbrev pub max_length : ℕ
max_length = 255

unfoldable pub new : List ℕ → Result AuthKey
new value =
    if length value == 0
    then err (invalid_auth_key "Auth key can't be empty.")
    else if ltb max_length (length value)
    then err (invalid_auth_key "Auth key max length is 255 bytes.")
    else ok (record { value = value })

unfoldable pub from_bytes : List ℕ → Result AuthKey
from_bytes bytes =
    if is_utf8 bytes then new bytes else err (invalid_auth_key "Invalid auth key UTF8 bytes.")

unfoldable pub to_str : AuthKey → List ℕ
to_str id = id.value

-- `TryFrom<&str>`, `TryFrom<String>` and `FromStr`
unfoldable pub try_from : List ℕ → Result AuthKey
try_from value = new value

unfoldable pub from_str : List ℕ → Result AuthKey
from_str value = new value

-- What every value that the constructors let through satisfies: 1 to 255 bytes of UTF-8.
pub record IsValid (id : AuthKey) : Type 0 where
  pub not_empty : 1 ≤ length id.value
  pub fits : length id.value ≤ max_length
  pub utf8 : is_utf8 id.value ≡ true

pub from_bytes-value : (id : AuthKey) → IsValid id → from_bytes id.value ≡ ok id
unfolding from_bytes new
from_bytes-value id h = ground arith

-- A valid value is read back from its own bytes.
pub from_bytes-to_str : (id : AuthKey) → IsValid id → from_bytes (to_str id) ≡ ok id
unfolding to_str
from_bytes-to_str id h = from_bytes-value id h

-- Whatever bytes arrive, a value that is accepted is valid and holds just these bytes.
pub from_bytes-IsValid :
    (bytes : List ℕ) (id : AuthKey) → from_bytes bytes ≡ ok id → (id.value ≡ bytes) × IsValid id
unfolding from_bytes new
from_bytes-IsValid bytes id h = ground arith
