-- ===== src/System/Granted.antt =====
-- What holds of the registry of a server whose tunnels all came from a handshake.
use mathlib.Core.List.{Memᴰ}
use mathlib.Core.List.Memᴰ.{tail}
use siffleux.Prelude.{
  ◌≡◌, ◌⊎◌, inl, inr, sym, ◌∙◌, some, List, ◌∷◌, All, arith, bytes_beq, Bool-cases, Option-cases,
}
use siffleux.Error.{ok}
use siffleux.Ids.Names.{AuthKey, IngressId, ingress_id_beq_iff}
use siffleux.Frames.{auth}
use siffleux.ByteCounter.{Counters}
use siffleux.Tunnel.{Tunnel}
use siffleux.Ingress.Boxed
use siffleux.Ingress.Boxed.{BoxedIngress, boxed_ingress}
use siffleux.Protocol.{AuthEvent}
use siffleux.Server.{Server, get_ingress_by_id, update_ingress}
use siffleux.Server.Registry.{IsWellFormed, get-update}
use siffleux.Server.Connection.{Meeting}
use siffleux.System.{Happening, connected, World, in_ingress}
use siffleux.System.Pools.{Keeps, All-map}

-- Among what happened is a connection whose first frame named the ingress with the key, and whose handshake
-- made the tunnel's id.
pub record Granted (past : List Happening) (k : IngressId) (key : AuthKey) (t : Tunnel)
    : Type 0 where
  pub meeting : Meeting
  pub happened : Memᴰ (connected meeting) past
  pub asked : meeting.event ≡ AuthEvent.frame (ok (auth key k))
  pub same_id : t.id ≡ meeting.tunnel_id

pub Granted-later :
    {past : List Happening} {k : IngressId} {key : AuthKey} (e : Happening) (t : Tunnel)
    → Granted past k key t
    → Granted (e ∷ past) k key t
Granted-later e t g = record {
  meeting = g.meeting;
  happened = tail g.happened;
  asked = g.asked;
  same_id = g.same_id;
}

-- Against the server at the start: the ingress of an id has the key that it had, and its tunnels were granted.
pub record Authenticated (start : Server BoxedIngress) (past : List Happening)
    (s : Server BoxedIngress) : Type 0 where
  pub keyed : IsWellFormed s
  pub same_key :
      (k : IngressId) (i : BoxedIngress)
      → get_ingress_by_id k s ≡ some i
      → (i₀ : BoxedIngress) × (get_ingress_by_id k start ≡ some i₀)
        × (Boxed.auth_key i ≡ Boxed.auth_key i₀)
  pub granted :
      (k : IngressId) (i : BoxedIngress)
      → get_ingress_by_id k s ≡ some i
      → All (Granted past k (Boxed.auth_key i)) (Boxed.pool i).tunnels

pub same-Authenticated :
    {start s : Server BoxedIngress} {past : List Happening} (e : Happening)
    → Authenticated start past s
    → Authenticated start (e ∷ past) s
same-Authenticated {past = past} e a = record {
  keyed = a.keyed;
  same_key = a.same_key;
  granted = λ k i h.
      All-map (Granted past k (Boxed.auth_key i)) (Granted-later e) (Boxed.pool i).tunnels
        (a.granted k i h);
}

updated-cases :
    (s : Server BoxedIngress) (k j : IngressId) (i i' b : BoxedIngress)
    → get_ingress_by_id k s ≡ some i
    → get_ingress_by_id j (update_ingress k i' s) ≡ some b
    → ((j ≡ k) × (b ≡ i')) ⊎ (get_ingress_by_id j s ≡ some b)
updated-cases s k j i i' b found h = elim (Bool-cases (bytes_beq k.value j.value)) [
  | inl e ↦ inl (sym ((ingress_id_beq_iff k j).0 e), ground (arith, get-update k i' s j found))
  | inr e ↦ inr (ground (arith, get-update k i' s j found))
]

-- An ingress of the registry is replaced by one with its id and key, and with tunnels that were granted.
pub update-Authenticated :
    {start s : Server BoxedIngress} {past : List Happening} (k : IngressId) (i i' : BoxedIngress)
    → Authenticated start past s
    → get_ingress_by_id k s ≡ some i
    → Boxed.id i' ≡ Boxed.id i
    → Boxed.auth_key i' ≡ Boxed.auth_key i
    → All (Granted past k (Boxed.auth_key i')) (Boxed.pool i').tunnels
    → Authenticated start past (update_ingress k i' s)
update-Authenticated {start} {s} {past} k i i' a found same_id same_key all = record {
  keyed = record {
    keyed = λ j b h. ground (
      arith,
      get-update k i' s j found,
      a.keyed.keyed k i found,
      a.keyed.keyed j b,
      ingress_id_beq_iff k j,
      same_id,
    );
  };
  same_key = λ j b h. elim (updated-cases s k j i i' b found h) [
    | inl (e, f) ↦ rw (e, f) (let (i₀, g, key) = a.same_key k i found in (i₀, g, same_key ∙ key))
    | inr old ↦ a.same_key j b old
  ];
  granted = λ j b h. elim (updated-cases s k j i i' b found h) [
    | inl (e, f) ↦ rw (e, f) all
    | inr old ↦ a.granted j b old
  ];
}

pub in_ingress-Authenticated :
    {start : Server BoxedIngress} {past : List Happening} (k : IngressId)
    (f : BoxedIngress → Counters → BoxedIngress × Counters) (w : World)
    → ((i : BoxedIngress) (cs : Counters) → Keeps i (f i cs).0)
    → Authenticated start past w.0
    → Authenticated start past (in_ingress k f w).0
unfolding in_ingress
in_ingress-Authenticated {past = past} k f (s, cs) keeps a =
    elim (Option-cases (get_ingress_by_id k s)) [
      | inl e ↦ rw (e, in_ingress) a
      | inr (i, e) ↦
          let kept = keeps i cs in
          rw (e, in_ingress)
            (update-Authenticated k i (f i cs).0 a e kept.id kept.auth_key (
              rw kept.auth_key
                (kept.tunnels (Granted past k (Boxed.auth_key i)) (a.granted k i e))))
    ]
