-- ===== src/Replication/Driver/Passed.antt =====
-- What the children of a filesystem look at before they go on, as facts about it.
use zrepl.Prelude.{
  ℕ, ◌<◌, ◌≡◌, ◌⊎◌, refl, inl, inr, true, false, not, ◌&&◌, ◌||◌, leb, Option, none, some, List, [],
  ◌∷◌, arith, Bool-cases,
}
use zrepl.Replication.Driver.{TimedError, StepOps, is_some, has_no_steps, first_is_incremental, Fs}
use zrepl.Replication.Driver.Sound.{IsReady}

module _ {S : Type 0} (ops : StepOps S) where
  -- A parent that lets its children go on.
  pub record IsPassed (p : Fs S) : Type 0 where
    pub planned : p.planning_done ≡ true
    pub no_error : p.planning_err ≡ none
    pub present :
        (p.steps ≡ [])
        ⊎ (((s : S) × (rest : List S) × (p.steps ≡ s ∷ rest) × (ops.is_incremental s ≡ true))
            ⊎ (0 < p.step))

  no_error_some : (o : Option TimedError) → is_some o ≡ false → o ≡ none
  no_error_some none h = refl
  no_error_some (some e) h = cc

  signs :
      (steps : List S) (step : ℕ)
      → (has_no_steps ops steps
          || first_is_incremental ops steps
          || (not (has_no_steps ops steps) && leb 1 step))
        ≡ true
      → (steps ≡ [])
        ⊎ (((s : S) × (rest : List S) × (steps ≡ s ∷ rest) × (ops.is_incremental s ≡ true))
            ⊎ (0 < step))
  signs [] step h = inl refl
  signs (s ∷ rest) step h = elim (Bool-cases (ops.is_incremental s)) [
    | inl e ↦ inr (inl (s, rest, refl, e))
    | inr e ↦ inr (inr (ground (arith, h, e)))
  ]

  pub IsReady-IsPassed : (p : Fs S) → IsReady ops p → IsPassed p
  IsReady-IsPassed p (planned, present) = record {
    planned = ground arith;
    no_error = no_error_some p.planning_err (ground arith);
    present = signs p.steps p.step present;
  }
