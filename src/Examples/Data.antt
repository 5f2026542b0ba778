-- ===== src/Examples/Data.antt =====
-- Values for the examples.
use siffleux.Prelude.{List, [], ◌∷◌, arith}
use siffleux.Ids.Names.{AuthKey, IngressId, ServerId}
use siffleux.Ids.AuthKey
use siffleux.Ids.IngressId
use siffleux.Ids.ServerId
use siffleux.Ids.Utf8.{ascii-is_utf8}
use siffleux.Frames.{SocketAddr, v4, Uuid}
use siffleux.Tunnel.{Tunnel}

abbrev pub key : AuthKey
key = record { value = 107 ∷ 101 ∷ 121 ∷ [] }

abbrev pub other_key : AuthKey
other_key = record { value = 120 ∷ [] }

abbrev pub web : IngressId
web = record { value = 119 ∷ 101 ∷ 98 ∷ [] }

abbrev pub home : ServerId
home = record { value = 104 ∷ [] }

abbrev pub first_id : Uuid
first_id = 1 ∷ 2 ∷ 3 ∷ 4 ∷ 5 ∷ 6 ∷ 7 ∷ 8 ∷ 9 ∷ 10 ∷ 11 ∷ 12 ∷ 13 ∷ 14 ∷ 15 ∷ 16 ∷ []

abbrev pub second_id : Uuid
second_id = 2 ∷ 2 ∷ 3 ∷ 4 ∷ 5 ∷ 6 ∷ 7 ∷ 8 ∷ 9 ∷ 10 ∷ 11 ∷ 12 ∷ 13 ∷ 14 ∷ 15 ∷ 16 ∷ []

pub key-IsValid : AuthKey.IsValid key
key-IsValid = record {
  not_empty = omega arith;
  fits = omega arith;
  utf8 = ascii-is_utf8 key.value (omega arith, (omega arith, (omega arith, tt)));
}

pub web-IsValid : IngressId.IsValid web
web-IsValid = record {
  not_empty = omega arith;
  fits = omega arith;
  utf8 = ascii-is_utf8 web.value (omega arith, (omega arith, (omega arith, tt)));
}

pub home-IsValid : ServerId.IsValid home
home-IsValid = record {
  not_empty = omega arith;
  fits = omega arith;
  utf8 = ascii-is_utf8 home.value (omega arith, tt);
}

abbrev pub loopback : SocketAddr
loopback = v4 (127 ∷ 0 ∷ 0 ∷ 1 ∷ []) 8080

abbrev pub first : Tunnel
first = record { id = first_id; server_id = home; connection = 0; byte_counter = 1 }

abbrev pub second : Tunnel
second = record { id = second_id; server_id = home; connection = 1; byte_counter = 2 }

abbrev pub two : List Tunnel
two = first ∷ second ∷ []
