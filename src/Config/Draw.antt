-- ===== src/Config/Draw.antt =====
-- siffleux-cli/src/utils.rs: `generate_secure_random_key` encodes random bytes, both by libraries, so the
-- keys are given: `keys size n` is what the call number `n` returns for `size` bytes. A conversion takes
-- the number of calls made before and returns it with its result.
use siffleux.Prelude.{◌≡◌, ℕ, suc, Option, none, some, List, [], ◌∷◌, length}
use siffleux.Error.{Result, ok, err, panic}
use siffleux.Ids.Names.{IngressId}

-- The errors of `Vec<EgressConfig>::try_from`: their texts name the protocol and the ingress id.
pub data ConfigError : Type 0 where
  tcp_without_server : IngressId → ConfigError
  udp_without_server : IngressId → ConfigError

pub data Outcome (A : Type 0) : Type 0 where
  made : A → Outcome A
  refused : ConfigError → Outcome A
  panicked : Outcome A

abbrev pub Draw : Type 0 → Type 0
Draw A = ℕ → Outcome A × ℕ

module _ {A : Type 0} where
  abbrev pub pure : A → Draw A
  pure a n = (made a, n)

  abbrev pub refuse : ConfigError → Draw A
  refuse e n = (refused e, n)

  -- `unwrap()`
  abbrev pub unwrap : Result A → Draw A
  unwrap (ok a) n = (made a, n)
  unwrap (err e) n = (panicked, n)
  unwrap panic n = (panicked, n)

module _ {A B : Type 0} where
  abbrev pub continue : Outcome A → (A → Draw B) → Draw B
  continue (made a) f n = f a n
  continue (refused e) f n = (refused e, n)
  continue panicked f n = (panicked, n)

  infixl 10 ◌>>=◌
  abbrev pub ◌>>=◌ : Draw A → (A → Draw B) → Draw B
  ◌>>=◌ m f n = continue (m n).0 f (m n).1

module _ {A B : Type 0} where
  -- `into_iter().map(f).collect()`, which stops at the first error.
  unfoldable pub collect : (A → Draw B) → List A → Draw (List B)
  collect f [] = pure []
  collect f (a ∷ l) = f a >>= λ b. (collect f l >>= λ bs. pure (b ∷ bs))

abbrev pub Keys : Type 0
Keys = ℕ → ℕ → List ℕ

unfoldable pub generate_secure_random_key : Keys → ℕ → Draw (List ℕ)
generate_secure_random_key keys size n = (made (keys size n), suc n)

-- `unwrap_or_else(|| T::try_from(generate_secure_random_key::<size>()).unwrap())`
unfoldable pub or_generated : {A : Type 0} → Keys → ℕ → (List ℕ → Result A) → Option A → Draw A
unfolding generate_secure_random_key
or_generated keys size try_from (some a) = pure a
or_generated keys size try_from none =
    generate_secure_random_key keys size >>= λ value. unwrap (try_from value)

-- Every id is drawn from 16 bytes, whose padded base64 text is documented to have 24 characters.
pub record AreKeys (keys : Keys) : Type 0 where
  pub of_16_bytes : (n : ℕ) → length (keys 16 n) ≡ 24
