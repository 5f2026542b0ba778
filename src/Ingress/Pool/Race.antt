-- ===== src/Ingress/Pool/Race.antt =====
-- server/ingress/tcp_ingress.rs and udp_ingress.rs: `assign_tunnel` spawns the task that waits for the
-- tunnel's end before it pushes the tunnel, so the two may run in either order. The steps of one
-- tunnel's life, among those of the others.
use siffleux.Prelude.{
  ◌∙◌, ℕ, ◌+◌, ◌≡◌, ◌≢◌, refl, Bool, true, false, List, [], ◌∷◌, ◌++◌, arith, bytes_beq_iff,
}
use siffleux.Tunnel.{Tunnel}
use siffleux.Frames.{Uuid}
use siffleux.Ingress.Pool.{Pool, push, on_closed}
use siffleux.Ingress.Pool.Removal.{count, one, count-on_closed}

-- Whether the tunnel has ended, whether it was pushed, and whether its waiting task is through.
pub record Life : Type 0 where
  pub pool : Pool
  pub ended : Bool
  pub pushed : Bool
  pub watched : Bool

pub data Step (t : Tunnel) : Life → Life → Type 0 where
  ends : (s : Life) → Step t s (record s { ended = true })
  pushes :
      (s : Life) → s.pushed ≡ false → Step t s (record s { pool = push t s.pool; pushed = true })
  watches :
      (s : Life)
      → s.ended ≡ true
      → s.watched ≡ false
      → Step t s (record s { pool = on_closed t s.pool; watched = true })
  other_pushes :
      (s : Life) (u : Tunnel) → u.id ≢ t.id → Step t s (record s { pool = push u s.pool })
  other_watches :
      (s : Life) (u : Tunnel) → u.id ≢ t.id → Step t s (record s { pool = on_closed u s.pool })

pub data Reach (t : Tunnel) (s : Life) : Life → Type 0 where
  here : Reach t s s
  next : {u v : Life} → Reach t s u → Step t u v → Reach t s v

pub count-append_one :
    (u : Uuid) (ts : List Tunnel) (t : Tunnel) → count u (ts ++ (t ∷ [])) ≡ count u ts + one u t
unfolding count
count-append_one u [] t = omega arith
count-append_one u (x ∷ ts) t = omega (arith, count-append_one u ts t)

pub count-push :
    (u : Uuid) (t : Tunnel) (pool : Pool)
    → count u (push t pool).tunnels ≡ count u pool.tunnels + one u t
unfolding push
count-push u t pool = count-append_one u pool.tunnels t

one_self : (t : Tunnel) → one t.id t ≡ 1
one_self t = ground (arith, bytes_beq_iff t.id t.id)

one_other : (t u : Tunnel) → u.id ≢ t.id → one t.id u ≡ 0
one_other t u h = ground (arith, bytes_beq_iff u.id t.id)

abbrev pub held : Tunnel → Life → ℕ
held t s = count t.id s.pool.tunnels

-- While the waiting task is not through, the tunnel is in the pool exactly if it was pushed.
pub record IsTracked (t : Tunnel) (s : Life) : Type 0 where
  pub absent : s.pushed ≡ false → held t s ≡ 0
  pub present : s.pushed ≡ true → s.watched ≡ false → held t s ≡ 1
  pub early : s.watched ≡ true → s.ended ≡ true

Step-IsTracked : {t : Tunnel} {s s' : Life} → Step t s s' → IsTracked t s → IsTracked t s'
Step-IsTracked (ends s) h = record { absent = h.absent; present = h.present; early = λ e. refl }
Step-IsTracked {t} (pushes s new) h = record {
  absent = λ e. cc;
  present = λ e w. omega (arith, count-push t.id t s.pool, one_self t, h.absent new);
  early = h.early;
}
Step-IsTracked {t} (watches s over new) h = record {
  absent = λ e. omega (arith, count-on_closed t s.pool t.id, h.absent e);
  present = λ e w. cc;
  early = λ e. over;
}
Step-IsTracked {t} (other_pushes s u other) h = record {
  absent = λ e. omega (arith, count-push t.id u s.pool, one_other t u other, h.absent e);
  present = λ e w. omega (arith, count-push t.id u s.pool, one_other t u other, h.present e w);
  early = h.early;
}
Step-IsTracked {t} (other_watches s u other) h = record {
  absent = λ e. omega (arith, count-on_closed u s.pool t.id, one_other t u other, h.absent e);
  present = λ e w. omega (arith, count-on_closed u s.pool t.id, one_other t u other, h.present e w);
  early = h.early;
}

Reach-IsTracked : {t : Tunnel} {s s' : Life} → IsTracked t s → Reach t s s' → IsTracked t s'
Reach-IsTracked h here = h
Reach-IsTracked h (next r st) = Step-IsTracked st (Reach-IsTracked h r)

abbrev pub fresh : Pool → Life
fresh pool = record { pool = pool; ended = false; pushed = false; watched = false }

fresh-IsTracked :
    (t : Tunnel) (pool : Pool) → count t.id pool.tunnels ≡ 0 → IsTracked t (fresh pool)
fresh-IsTracked t pool h = record { absent = λ e. h; present = λ e w. cc; early = λ e. cc }

-- In whatever order the tasks run, from any pool without the tunnel: a tunnel that was pushed
-- and whose waiting task is not through yet is in the pool once; and when the waiting task runs
-- in that state, it takes the tunnel out.
pub watched_after_push :
    (t : Tunnel) (pool : Pool) (s : Life)
    → count t.id pool.tunnels ≡ 0
    → Reach t (fresh pool) s
    → s.pushed ≡ true
    → s.watched ≡ false
    → (held t s ≡ 1) × (count t.id (on_closed t s.pool).tunnels ≡ 0)
watched_after_push t pool s h r p w =
    let i = Reach-IsTracked (fresh-IsTracked t pool h) r in
    (i.present p w, omega (arith, count-on_closed t s.pool t.id, one_self t, i.present p w))

settled-Step :
    {t : Tunnel} {u v : Life} {n : ℕ}
    → Step t u v
    → (held t u ≡ n) × (u.pushed ≡ true) × (u.watched ≡ true)
    → (held t v ≡ n) × (v.pushed ≡ true) × (v.watched ≡ true)
settled-Step (ends s) h = h
settled-Step (pushes s new) h = cc (new, h.1)
settled-Step (watches s over new) h = cc (new, h.2)
settled-Step {t} (other_pushes s u other) h =
    (omega (arith, count-push t.id u s.pool, one_other t u other, h.0), h.1, h.2)
settled-Step {t} (other_watches s u other) h =
    (omega (arith, count-on_closed u s.pool t.id, one_other t u other, h.0), h.1, h.2)

-- Once a tunnel is pushed and its waiting task is through, no step ever changes how often it is in the
-- pool.
pub settled :
    {t : Tunnel} {s s' : Life}
    → s.pushed ≡ true
    → s.watched ≡ true
    → Reach t s s'
    → (held t s' ≡ held t s) × (s'.pushed ≡ true) × (s'.watched ≡ true)
settled p w here = (refl, p, w)
settled {t} p w (next r st) = settled-Step st (settled p w r)

-- A tunnel that ends before it is pushed may stay for ever: from any pool without it, the steps can reach
-- a state in which it has ended, its waiting task is through, and it is in the pool; and then it stays
-- there whatever happens next.
pub stale_tunnel :
    (t : Tunnel) (pool : Pool)
    → count t.id pool.tunnels ≡ 0
    → (s : Life) × Reach t (fresh pool) s
      × (s.ended ≡ true)
      × ((s' : Life) → Reach t s s' → held t s' ≡ 1)
stale_tunnel t pool h =
    let gone : Life = record {
      pool = on_closed t pool;
      ended = true;
      pushed = false;
      watched = true;
    } in
    let s : Life = record {
      pool = push t (on_closed t pool);
      ended = true;
      pushed = true;
      watched = true;
    } in
    let is_one : held t s ≡ 1 =
      omega
        (arith, count-push t.id t (on_closed t pool), count-on_closed t pool t.id, one_self t, h) in
    (
      s,
      next
          (next (next here (ends (fresh pool))) (
            watches (record { pool = pool; ended = true; pushed = false; watched = false }) refl
              refl))
          (pushes gone refl),
      refl,
      λ s' r. (settled refl refl r).0 ∙ is_one,
    )
