-- ===== src/System/Aborted.antt =====
-- A server of which one task has panicked: the process has ended if the build aborts on panics.
use siffleux.Prelude.{
  ◌≡◌, ◌⊎◌, inl, inr, refl, ap, Bool, true, ◌&&◌, none, some, List, [], ◌∷◌, ◌++◌, arith,
  Bool-cases,
}
use siffleux.System.{Happening, World, panics, run, live_run}

-- A panic that ended the process: its place among all that happened, of which the last comes first.
pub record Died (aborts : Bool) (past : List Happening) (w : World) : Type 0 where
  pub aborting : aborts ≡ true
  pub later : List Happening
  pub fatal : Happening
  pub earlier : List Happening
  pub split : later ++ (fatal ∷ earlier) ≡ past
  pub panicked : panics fatal (run earlier w) ≡ true

-- The process runs on as if nothing had panicked, or a panic has ended it.
pub live_run-cases :
    (aborts : Bool) (past : List Happening) (w : World)
    → (live_run aborts past w ≡ some (run past w))
      ⊎ ((live_run aborts past w ≡ none) × Died aborts past w)
unfolding live_run run
live_run-cases aborts [] w = inl refl
live_run-cases aborts (e ∷ past) w = elim (live_run-cases aborts past w) [
  | inl lives ↦ elim (Bool-cases (aborts && panics e (run past w))) [
    | inl dies ↦ inr (
      rw (lives, live_run, dies) refl,
      record {
        aborting = ground (arith, dies);
        later = [];
        fatal = e;
        earlier = past;
        split = refl;
        panicked = ground (arith, dies);
      },
    )
    | inr goes ↦ inl (rw (lives, live_run, goes) refl)
  ]
  | inr (ended, d) ↦ inr (
    rw (ended, live_run) refl,
    record {
      aborting = d.aborting;
      later = e ∷ d.later;
      fatal = d.fatal;
      earlier = d.earlier;
      split = ap (λ l. e ∷ l) d.split;
      panicked = d.panicked;
    },
  )
]
