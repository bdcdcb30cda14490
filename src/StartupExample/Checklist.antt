-- ===== src/StartupExample/Checklist.antt =====
-- The summary: the name of each step and whether it passed. What is printed is left out.
use rsezsp.Prelude.{ℕ, suc, List, [], ◌∷◌, ◌++◌, Bool, true, false, length}
use Prim.Native.String.{String}

pub record Checklist : Type 0 where
  pub lines : List (String × Bool)

abbrev pub new : Checklist
new = record { lines = [] }

unfoldable pub pass : Checklist → String → Checklist
pass step name = record { lines = step.lines ++ (name, true) ∷ [] }

unfoldable pub fail : Checklist → String → Checklist
fail step name = record { lines = step.lines ++ (name, false) ∷ [] }

abbrev count_passed : List (String × Bool) → ℕ
count_passed [] = 0
count_passed ((name, true) ∷ rest) = suc (count_passed rest)
count_passed ((name, false) ∷ rest) = count_passed rest

-- The numbers that `report` prints: of the steps that passed, and of all.
unfoldable pub report : Checklist → ℕ × ℕ
report step = (count_passed step.lines, length step.lines)
