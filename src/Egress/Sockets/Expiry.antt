-- ===== src/Egress/Sockets/Expiry.antt =====
-- client/egress/udp_egress.rs: the tunnel's loop with the task of each origin (`pipe_tunnel_to_socket_datagram`), which
-- takes datagrams from its channel, and when it ends before the tunnel does, sends its origin to be removed.
use mathlib.Core.Path.{subst}
use siffleux.Prelude.{
  ◌∙◌, sym, ◌⊎◌, ℕ, ◌+◌, ◌≡◌, refl, true, false, Option, none, some, List, [], ◌∷◌, ◌++◌, drop,
  arith, lookup, insert, lookup-insert, lookup-remove, if◌then◌else◌, Option-cases, inl, inr,
}
use siffleux.Error.{Result, ok, err, panic}
use siffleux.Frames.{SocketAddr}
use siffleux.Frames.{extract_origin_socket_addr_from_datagram}
use siffleux.Egress.Sockets.{
  Bool, Sockets, Channel, addr_beq, addr_beq_iff, addr_eq, try_send, send_from, after_extract,
  process_datagram, expire,
}
use siffleux.Egress.Sockets.Flows.{lookup-send_from, channel_or_new}

-- The sockets, the origins in the channel of expired ones, and whether the token of the process is cancelled.
pub record Origins : Type 0 where
  pub sockets : Sockets
  pub expired : List SocketAddr
  pub process_cancelled : Bool

abbrev pub set_channel : SocketAddr → Channel → Sockets → Sockets
set_channel o c s = record s { udp_sockets = insert o c s.udp_sockets }

-- One turn of the loop or of a task, until the loop ends: a datagram of the tunnel; a task that takes datagrams from its
-- channel; a task that ends because it got no socket, was idle, or saw the end of the tunnel, which drops its receiver and
-- sends its origin; the loop that takes an expired origin; the process that is cancelled; and a task that sees
-- it, which drops its receiver and sends nothing.
pub data OriginStep : Origins → Origins → Type 0 where
  datagram :
      (s : Origins) (d : List ℕ) (sockets : Sockets)
      → process_datagram d s.sockets ≡ ok sockets
      → OriginStep s (record s { sockets = sockets })
  takes :
      (s : Origins) (o : SocketAddr) (c : Channel) (n : ℕ)
      → lookup o s.sockets.udp_sockets ≡ some c
      → c.open_end ≡ true
      → OriginStep s
          (record s { sockets = set_channel o (record c { queue = drop n c.queue }) s.sockets })
  task_ends :
      (s : Origins) (o : SocketAddr) (c : Channel)
      → lookup o s.sockets.udp_sockets ≡ some c
      → c.open_end ≡ true
      → OriginStep s (record s {
        sockets = set_channel o (record { queue = []; open_end = false }) s.sockets;
        expired = s.expired ++ (o ∷ []);
      })
  expires :
      (s : Origins) (o : SocketAddr) (rest : List SocketAddr)
      → s.expired ≡ o ∷ rest
      → OriginStep s (record s { sockets = expire o s.sockets; expired = rest })
  cancels : (s : Origins) → OriginStep s (record s { process_cancelled = true })
  task_quits :
      (s : Origins) (o : SocketAddr) (c : Channel)
      → s.process_cancelled ≡ true
      → lookup o s.sockets.udp_sockets ≡ some c
      → c.open_end ≡ true
      → OriginStep s
          (record s { sockets = set_channel o (record { queue = []; open_end = false }) s.sockets })

pub data OriginReach (s : Origins) : Origins → Type 0 where
  here : OriginReach s s
  next : {u v : Origins} → OriginReach s u → OriginStep u v → OriginReach s v

-- How often an origin waits to be removed.
pub count : SocketAddr → List SocketAddr → ℕ
count o [] = 0
count o (a ∷ l) = (if addr_beq a o then 1 else 0) + count o l

abbrev pub closed : Option Channel → ℕ
closed none = 0
closed (some c) = if c.open_end then 0 else 1

-- An origin waits to be removed once if its task has ended, or not at all if the process is cancelled; and not at all
-- if its task runs or it has no channel.
abbrev Waits : Origins → SocketAddr → Type 0
Waits s o =
    (count o s.expired ≡ closed (lookup o s.sockets.udp_sockets))
    ⊎ ((s.process_cancelled ≡ true) × (count o s.expired ≡ 0))

pub record IsAccounted (s : Origins) : Type 0 where
  pub waits : (o : SocketAddr) → Waits s o

count-append_one :
    (o a : SocketAddr) (l : List SocketAddr)
    → count o (l ++ (a ∷ [])) ≡ count o l + (if addr_beq a o then 1 else 0)
unfolding count
count-append_one o a [] = omega arith
count-append_one o a (x ∷ l) = omega (arith, count-append_one o a l)

closed-try_send : (bytes : List ℕ) (c : Channel) → (try_send bytes c).open_end ≡ c.open_end
unfolding try_send
closed-try_send bytes c = ground arith

closed-send_from :
    (o : SocketAddr) (bytes : List ℕ) (s : Sockets) (j : SocketAddr)
    → closed (lookup j (send_from o bytes s).udp_sockets) ≡ closed (lookup j s.udp_sockets)
closed-send_from o bytes s j = elim (Option-cases (lookup o s.udp_sockets)) [
  | inl e ↦ ground (
    arith,
    lookup-send_from o bytes s j,
    addr_beq_iff o j,
    closed-try_send bytes (channel_or_new (lookup o s.udp_sockets)),
    e,
  )
  | inr (c, e) ↦
      ground (arith, lookup-send_from o bytes s j, addr_beq_iff o j, closed-try_send bytes c, e)
]

closed-after_extract :
    (r : Result (Option SocketAddr)) (bytes : List ℕ) (s s' : Sockets)
    → after_extract r bytes s ≡ ok s'
    → (j : SocketAddr) → closed (lookup j s'.udp_sockets) ≡ closed (lookup j s.udp_sockets)
unfolding after_extract
closed-after_extract (ok none) bytes s s' e j = let q : s ≡ s' = cc in rw q refl
closed-after_extract (ok (some o)) bytes s s' e j =
    let q : send_from o bytes s ≡ s' = cc in
    subst (λ x. closed (lookup j x.udp_sockets) ≡ closed (lookup j s.udp_sockets)) q
      (closed-send_from o bytes s j)
closed-after_extract (err x) bytes s s' e j = cc
closed-after_extract panic bytes s s' e j = cc

Step-IsAccounted : {s s' : Origins} → OriginStep s s' → IsAccounted s → IsAccounted s'
unfolding process_datagram expire count
Step-IsAccounted (datagram s d sockets e) h =
    let (r, bytes) = extract_origin_socket_addr_from_datagram d in
    record {
      waits = λ j. elim (h.waits j) [
        | inl w ↦ inl (w ∙ sym (closed-after_extract r bytes s.sockets sockets e j))
        | inr w ↦ inr w
      ];
    }
Step-IsAccounted (takes s o c n e l) h = record {
  waits = λ j. ground (
    arith,
    h.waits j,
    lookup-insert o j (record c { queue = drop n c.queue }) s.sockets.udp_sockets,
    addr_beq_iff o j,
  );
}
Step-IsAccounted (task_ends s o c e l) h = record {
  waits = λ j. ground (
    arith,
    h.waits j,
    count-append_one j o s.expired,
    lookup-insert o j (record { queue = []; open_end = false }) s.sockets.udp_sockets,
    addr_beq_iff o j,
  );
}
Step-IsAccounted (expires s o rest e) h = record {
  waits = λ j. ground (arith, h.waits j, lookup-remove o j s.sockets.udp_sockets, addr_beq_iff o j);
}
Step-IsAccounted (cancels s) h = record { waits = λ j. ground (arith, h.waits j) }
Step-IsAccounted (task_quits s o c q e l) h = record {
  waits = λ j. ground (
    arith,
    h.waits j,
    lookup-insert o j (record { queue = []; open_end = false }) s.sockets.udp_sockets,
    addr_beq_iff o j,
  );
}

-- A new tunnel starts without channels.
abbrev pub no_origins : Origins
no_origins = record {
  sockets = record { udp_sockets = []; spawned = [] };
  expired = [];
  process_cancelled = false;
}

Reach-IsAccounted : {s : Origins} → OriginReach no_origins s → IsAccounted s
unfolding count lookup
Reach-IsAccounted here = record { waits = λ o. inl refl }
Reach-IsAccounted (next r st) = Step-IsAccounted st (Reach-IsAccounted r)

-- However the loop and the tasks take turns: an origin waits to be removed exactly once if it has a channel whose task
-- has ended, unless the process is cancelled, when it may also not wait; and it does not wait if its task runs or it
-- has no channel.
pub expires_dead :
    (s : Origins) (o : SocketAddr)
    → OriginReach no_origins s
    → ((count o s.expired ≡ 0) × (lookup o s.sockets.udp_sockets ≡ none))
      ⊎ ((c : Channel) × (lookup o s.sockets.udp_sockets ≡ some c)
          × (((c.open_end ≡ true) × (count o s.expired ≡ 0))
              ⊎ ((c.open_end ≡ false)
                  × ((count o s.expired ≡ 1)
                      ⊎ ((s.process_cancelled ≡ true) × (count o s.expired ≡ 0))))))
expires_dead s o r = elim (Option-cases (lookup o s.sockets.udp_sockets)) [
  | inl e ↦ inl (ground (arith, (Reach-IsAccounted r).waits o, e), e)
  | inr (c, e) ↦ inr (c, e, ground (arith, (Reach-IsAccounted r).waits o, e))
]
