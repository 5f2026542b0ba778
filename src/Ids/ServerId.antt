-- ===== src/Ids/ServerId.antt =====
-- siffleux/src/server/server_id.rs. A Rust `String` is the list of its UTF-8 bytes, and `len()` its length.
use siffleux.Prelude.{ℕ, ◌≤◌, ◌≡◌, true, List, ◌||◌, arith, length, ltb, ◌==◌, if◌then◌else◌}
use siffleux.Ids.Names.{ServerId}
use siffleux.Ids.Utf8.{is_utf8}
use siffleux.Error.{Result, ok, err, invalid_server_id}

abbrev pub server_id_max_length : ℕ
server_id_max_length = 255

unfoldable pub new : List ℕ → Result ServerId
new value =
    if length value == 0 || ltb server_id_max_length (length value)
    then err (invalid_server_id "Server ID has to be between 1 and 255 UTF8 bytes.")
    else ok (record { value = value })

unfoldable pub from_bytes : List ℕ → Result ServerId
from_bytes bytes =
    if is_utf8 bytes then new bytes else err (invalid_server_id "Invalid server ID UTF8 bytes.")

unfoldable pub to_str : ServerId → List ℕ
to_str id = id.value

unfoldable pub len : ServerId → ℕ
len id = length id.value

-- `Display` prints the string itself.
unfoldable pub fmt : ServerId → List ℕ
fmt id = id.value

-- `TryFrom<&str>`, `TryFrom<String>` and `FromStr`
unfoldable pub try_from : List ℕ → Result ServerId
try_from value = new value

unfoldable pub from_str : List ℕ → Result ServerId
from_str value = new value

-- What every value that the constructors let through satisfies: 1 to 255 bytes of UTF-8.
pub record IsValid (id : ServerId) : Type 0 where
  pub not_empty : 1 ≤ length id.value
  pub fits : length id.value ≤ server_id_max_length
  pub utf8 : is_utf8 id.value ≡ true

pub from_bytes-value : (id : ServerId) → IsValid id → from_bytes id.value ≡ ok id
unfolding from_bytes new
from_bytes-value id h = ground arith

-- A valid value is read back from its own bytes.
pub from_bytes-to_str : (id : ServerId) → IsValid id → from_bytes (to_str id) ≡ ok id
unfolding to_str
from_bytes-to_str id h = from_bytes-value id h

-- Whatever bytes arrive, a value that is accepted is valid and holds just these bytes.
pub from_bytes-IsValid :
    (bytes : List ℕ) (id : ServerId) → from_bytes bytes ≡ ok id → (id.value ≡ bytes) × IsValid id
unfolding from_bytes new
from_bytes-IsValid bytes id h = ground arith
