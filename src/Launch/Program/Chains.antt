-- ===== src/Launch/Program/Chains.antt =====
-- siffleux-cli: chains of draws, and what a list of one configuration comes to.
use siffleux.Prelude.{suc, ℕ, ◌≡◌, refl, Option, none, some, List, [], ◌∷◌, ◌++◌}
use siffleux.Error.{Result, ok, err, panic}
use siffleux.Config.Draw.{
  Keys, or_generated, unwrap, generate_secure_random_key, Draw, Outcome, made, refused, panicked,
  pure, continue, ◌>>=◌,
}
use siffleux.Config.Types.{EgressConfig, ServerConfig, IngressConfig}
use siffleux.Launch.Program.{Plan, launch_server, launch_client, unwrapped, unwrap_refused}

module _ {A B : Type 0} where
  -- Chains of draws: what follows is only run on what was made.
  pub continue-cong :
      (d : Outcome A × ℕ) (f g : A → Draw B)
      → ((a : A) (n : ℕ) → f a n ≡ g a n)
      → continue d.0 f d.1 ≡ continue d.0 g d.1
  continue-cong (made a, n) f g h = h a n
  continue-cong (refused e, n) f g h = refl
  continue-cong (panicked, n) f g h = refl

  module _ {C : Type 0} where
    pub bind_assoc :
        (m : Draw A) (f : A → Draw B) (g : B → Draw C) (n : ℕ)
        → ((m >>= f) >>= g) n ≡ (m >>= λ a. f a >>= g) n
    bind_assoc m f g n = go (m n)
      where
        go :
            (d : Outcome A × ℕ)
            → continue (continue d.0 f d.1).0 g (continue d.0 f d.1).1
              ≡ continue d.0 (λ a. f a >>= g) d.1
        go (made a, k) = refl
        go (refused e, k) = refl
        go (panicked, k) = refl

-- A list of one, as `collect` makes it.
abbrev pub single : {A : Type 0} → Draw A → Draw (List A)
single m = m >>= λ b. (pure [] >>= λ bs. pure (b ∷ bs))

abbrev pub paired : ServerConfig → List IngressConfig → Draw (ServerConfig × List IngressConfig)
paired config l n = (made (config, l), n)

-- What a file comes to, from the lists of its tables.
abbrev pub of_lists :
    ServerConfig → Draw (List IngressConfig) → Draw (List IngressConfig) → Draw Plan
of_lists config tcp udp =
    (tcp >>= λ t. (udp >>= λ u. paired config (t ++ u))) >>= λ x. pure (launch_server x.0 x.1)

pub one_tcp :
    (m : Draw IngressConfig) (config : ServerConfig) (n : ℕ)
    → (m >>= λ i. pure (launch_server config (i ∷ []))) n ≡ of_lists config (single m) (pure []) n
one_tcp m config n = go (m n)
  where
    go :
        (d : Outcome IngressConfig × ℕ)
        → continue d.0 (λ i. pure (launch_server config (i ∷ []))) d.1
          ≡ of_lists config (single (λ _. d)) (pure []) n
    go (made a, k) = refl
    go (refused e, k) = refl
    go (panicked, k) = refl

pub one_udp :
    (m : Draw IngressConfig) (config : ServerConfig) (n : ℕ)
    → (m >>= λ i. pure (launch_server config (i ∷ []))) n ≡ of_lists config (pure []) (single m) n
one_udp m config n = go (m n)
  where
    go :
        (d : Outcome IngressConfig × ℕ)
        → continue d.0 (λ i. pure (launch_server config (i ∷ []))) d.1
          ≡ of_lists config (pure []) (single (λ _. d)) n
    go (made a, k) = refl
    go (refused e, k) = refl
    go (panicked, k) = refl

-- What a client's file comes to.
abbrev pub of_egresses : Draw (List EgressConfig) → Draw (List EgressConfig) → Draw Plan
of_egresses tcp udp =
    unwrapped (tcp >>= λ t. (udp >>= λ u. pure (t ++ u))) >>= λ l. pure (launch_client l)

-- A draw that is never refused.
abbrev pub Unrefused : {A : Type 0} → Outcome A → Type 0
Unrefused o = unwrap_refused o ≡ o

pub one_tcp_egress :
    (m : Draw EgressConfig) (n : ℕ)
    → Unrefused (m n).0
    → (m >>= λ e. pure (launch_client (e ∷ []))) n ≡ of_egresses (single m) (pure []) n
one_tcp_egress m n h = go (m n) h
  where
    go :
        (d : Outcome EgressConfig × ℕ)
        → Unrefused d.0
        → continue d.0 (λ e. pure (launch_client (e ∷ []))) d.1
          ≡ of_egresses (single (λ _. d)) (pure []) n
    go (made a, k) h = refl
    go (refused e, k) h = cc
    go (panicked, k) h = refl

pub one_udp_egress :
    (m : Draw EgressConfig) (n : ℕ)
    → Unrefused (m n).0
    → (m >>= λ e. pure (launch_client (e ∷ []))) n ≡ of_egresses (pure []) (single m) n
one_udp_egress m n h = go (m n) h
  where
    go :
        (d : Outcome EgressConfig × ℕ)
        → Unrefused d.0
        → continue d.0 (λ e. pure (launch_client (e ∷ []))) d.1
          ≡ of_egresses (pure []) (single (λ _. d)) n
    go (made a, k) h = refl
    go (refused e, k) h = cc
    go (panicked, k) h = refl

module _ {A : Type 0} (keys : Keys) (size : ℕ) (try_from : List ℕ → Result A) where
  unwrap-Unrefused : (r : Result A) (n : ℕ) → Unrefused (unwrap r n).0
  unwrap-Unrefused (ok a) n = refl
  unwrap-Unrefused (err e) n = refl
  unwrap-Unrefused panic n = refl

  -- A generated id is made or panics.
  or_generated-Unrefused :
      (o : Option A) (n : ℕ) → Unrefused (or_generated keys size try_from o n).0
  unfolding or_generated generate_secure_random_key
  or_generated-Unrefused (some a) n = refl
  or_generated-Unrefused none n = unwrap-Unrefused (try_from (keys size n)) (suc n)

  continue-Unrefused :
      {B : Type 0} (d : Outcome A × ℕ) (f : A → B)
      → Unrefused d.0
      → Unrefused (continue d.0 (λ a. pure (f a)) d.1).0
  continue-Unrefused (made a, k) f h = refl
  continue-Unrefused (refused e, k) f h = cc
  continue-Unrefused (panicked, k) f h = refl

  pub made_of-Unrefused :
      {B : Type 0} (o : Option A) (f : A → B) (n : ℕ)
      → Unrefused ((or_generated keys size try_from o >>= λ a. pure (f a)) n).0
  made_of-Unrefused o f n =
      continue-Unrefused (or_generated keys size try_from o n) f (or_generated-Unrefused o n)
