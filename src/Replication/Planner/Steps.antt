-- ===== src/Replication/Planner/Steps.antt =====
-- The steps along a path.
use Prim.Native.String.{String}
use zrepl.Prelude.{◌≡◌, refl, ap, Option, List, [], ◌∷◌, map, arith, ok}
use zrepl.Replication.Version.{FilesystemVersion}
use zrepl.Replication.Planner.{Step, new_step, steps_of_path, checked_steps}

-- Every step but the first starts where the one before it ends, and uses no resume token.
abbrev pub IsChain : List Step → Type 0
IsChain [] = Unit
IsChain (s ∷ []) = Unit
IsChain (s ∷ t ∷ rest) = (t.from ≡ s.to) × (t.resume_token ≡ "") × IsChain (t ∷ rest)

abbrev pub targets : List Step → List (Option FilesystemVersion)
targets = map (λ s. s.to)

-- The steps along a path that goes on from `from` are those of `from ∷ path`.
pub step-IsChain :
    (from to : Option FilesystemVersion) (token : String) (path : List (Option FilesystemVersion))
    → IsChain (new_step from to token ∷ steps_of_path (to ∷ path))
unfolding steps_of_path
step-IsChain from to token [] = tt
step-IsChain from to token (next ∷ path) = (refl, refl, step-IsChain to next "" path)

pub steps_of_path-IsChain : (path : List (Option FilesystemVersion)) → IsChain (steps_of_path path)
unfolding steps_of_path
steps_of_path-IsChain [] = tt
steps_of_path-IsChain (a ∷ []) = tt
steps_of_path-IsChain (a ∷ b ∷ rest) = step-IsChain a b "" rest

pub targets-steps_of_path :
    (a : Option FilesystemVersion) (path : List (Option FilesystemVersion))
    → targets (steps_of_path (a ∷ path)) ≡ path
unfolding steps_of_path
targets-steps_of_path a [] = refl
targets-steps_of_path a (b ∷ rest) = ap (◌∷◌ b) (targets-steps_of_path b rest)

-- What planning makes of a path.
pub checked_steps-ok :
    (path : List (Option FilesystemVersion)) (steps : List Step)
    → checked_steps path ≡ ok steps
    → steps ≡ steps_of_path path
unfolding checked_steps steps_of_path
checked_steps-ok [] steps h = ground arith
checked_steps-ok (a ∷ []) steps h = absurd (ground arith)
checked_steps-ok (a ∷ b ∷ rest) steps h = ground arith
