-- ===== src/ByteCounter/Totals.antt =====
-- siffleux/src/common/byte_counter.rs: what a counter shows after any history is its total.
use native.Mathlib.Nat.{mod-add-mod}
use siffleux.Prelude.{
  ℕ, ◌+◌, ◌%◌, ◌^◌, ◌<◌, ◌≡◌, refl, ap, ◌∙◌, Bool, true, false, Option, some, List, [], ◌∷◌, All,
  arith, Bool-cases, inl, inr,
}
use siffleux.ByteCounter.{Counters, bytes_read, bytes_write}
use siffleux.ByteCounter.Chain.{
  IsWellFormed, OnChain, on_chain, on_chain_sound, on_chain_complete, bump, read-add_bytes_read,
}
use siffleux.ByteCounter.Written.{
  written-add_bytes_write, read-add_bytes_write, written-add_bytes_read,
}
use siffleux.ByteCounter.History.{
  Count, read, write, place, add, add_all, nothing, read_below, write_below, elsewhere, Shown,
  add-IsWellFormed, Total-add,
}

bumped :
    (b : Bool) (n a : ℕ) (o : Option ℕ)
    → b ≡ true
    → o ≡ some (a % 2 ^ 64)
    → bump b n o ≡ some ((a + n) % 2 ^ 64)
bumped b n a o on h = rw (on, h) (ap (λ x. some x) (mod-add-mod a (2 ^ 64) n))

kept : (b : Bool) (n : ℕ) (o : Option ℕ) {x : ℕ} → b ≡ false → o ≡ some x → bump b n o ≡ some x
kept b n o off h = rw (off, h) refl

not-OnChain :
    (fuel j i : ℕ) (cs : Counters)
    → IsWellFormed cs
    → i < fuel
    → on_chain fuel j i cs ≡ false
    → ¬ OnChain cs j i
not-OnChain fuel j i cs w h off c = cc (off, on_chain_complete fuel j i cs w h c)

sum_move : (a n r : ℕ) → some ((a + n + r) % 2 ^ 64) ≡ some ((a + (n + r)) % 2 ^ 64)
sum_move a n r = let e : a + n + r ≡ a + (n + r) = omega arith in ap (λ x. some (x % 2 ^ 64)) e

pub read-Shown :
    (fuel j a b i n : ℕ) (history : List Count) (cs : Counters)
    → IsWellFormed cs
    → i < fuel
    → bytes_read j cs ≡ some (a % 2 ^ 64)
    → ((a' : ℕ)
        → bytes_read j (add fuel (read i n) cs) ≡ some (a' % 2 ^ 64)
        → Shown fuel j a' b history (add fuel (read i n) cs))
    → Shown fuel j a b (read i n ∷ history) cs
unfolding add_all add
read-Shown fuel j a b i n history cs wf lt shown next =
    let e = read i n in
    let new = read-add_bytes_read fuel i j n cs wf in
    elim (Bool-cases (on_chain fuel j i cs)) [
      | inl on ↦
          let rest =
            next (a + n) (new ∙ bumped (on_chain fuel j i cs) n a (bytes_read j cs) on shown) in
          record {
            read_total = n + rest.read_total;
            write_total = rest.write_total;
            total = read_below (on_chain_sound fuel j i cs on) (Total-add fuel e cs rest.total);
            shows_read = rest.shows_read ∙ sum_move a n rest.read_total;
            shows_write = rest.shows_write;
          }
      | inr off ↦
          let rest = next a (new ∙ kept (on_chain fuel j i cs) n (bytes_read j cs) off shown) in
          record {
            read_total = rest.read_total;
            write_total = rest.write_total;
            total = elsewhere (not-OnChain fuel j i cs wf lt off) (Total-add fuel e cs rest.total);
            shows_read = rest.shows_read;
            shows_write = rest.shows_write;
          }
    ]

pub write-Shown :
    (fuel j a b i n : ℕ) (history : List Count) (cs : Counters)
    → IsWellFormed cs
    → i < fuel
    → bytes_write j cs ≡ some (b % 2 ^ 64)
    → ((b' : ℕ)
        → bytes_write j (add fuel (write i n) cs) ≡ some (b' % 2 ^ 64)
        → Shown fuel j a b' history (add fuel (write i n) cs))
    → Shown fuel j a b (write i n ∷ history) cs
unfolding add_all add
write-Shown fuel j a b i n history cs wf lt shown next =
    let e = write i n in
    let new = written-add_bytes_write fuel i j n cs wf in
    elim (Bool-cases (on_chain fuel j i cs)) [
      | inl on ↦
          let rest =
            next (b + n) (new ∙ bumped (on_chain fuel j i cs) n b (bytes_write j cs) on shown) in
          record {
            read_total = rest.read_total;
            write_total = n + rest.write_total;
            total = write_below (on_chain_sound fuel j i cs on) (Total-add fuel e cs rest.total);
            shows_read = rest.shows_read;
            shows_write = rest.shows_write ∙ sum_move b n rest.write_total;
          }
      | inr off ↦
          let rest = next b (new ∙ kept (on_chain fuel j i cs) n (bytes_write j cs) off shown) in
          record {
            read_total = rest.read_total;
            write_total = rest.write_total;
            total = elsewhere (not-OnChain fuel j i cs wf lt off) (Total-add fuel e cs rest.total);
            shows_read = rest.shows_read;
            shows_write = rest.shows_write;
          }
    ]

sum_zero : (a : ℕ) → some (a % 2 ^ 64) ≡ some ((a + 0) % 2 ^ 64)
sum_zero a = let e : a ≡ a + 0 = omega arith in ap (λ x. some (x % 2 ^ 64)) e

-- Among counters whose parents were made before them, and with fuel above every place: after any history of reading and
-- writing, a counter that showed `a` and `b`, modulo 2 ^ 64, shows `a` and all bytes that were read at it or below it,
-- and `b` and all bytes that were written there, modulo 2 ^ 64.
pub shows-Total :
    (fuel j a b : ℕ) (history : List Count) (cs : Counters)
    → IsWellFormed cs
    → All (λ e. place e < fuel) history
    → bytes_read j cs ≡ some (a % 2 ^ 64)
    → bytes_write j cs ≡ some (b % 2 ^ 64)
    → Shown fuel j a b history cs
unfolding add_all add
shows-Total fuel j a b [] cs wf all hr hw = record {
  read_total = 0;
  write_total = 0;
  total = nothing;
  shows_read = hr ∙ sum_zero a;
  shows_write = hw ∙ sum_zero b;
}
shows-Total fuel j a b (read i n ∷ history) cs wf (lt, all) hr hw =
    read-Shown fuel j a b i n history cs wf lt hr (λ a' h.
      shows-Total fuel j a' b history (add fuel (read i n) cs)
        (add-IsWellFormed fuel (read i n) cs wf) all h (written-add_bytes_read fuel i j n cs ∙ hw))
shows-Total fuel j a b (write i n ∷ history) cs wf (lt, all) hr hw =
    write-Shown fuel j a b i n history cs wf lt hw (λ b' h.
      shows-Total fuel j a b' history (add fuel (write i n) cs)
        (add-IsWellFormed fuel (write i n) cs wf) all (read-add_bytes_write fuel i j n cs ∙ hr) h)
