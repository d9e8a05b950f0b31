-- ===== src/Examples/Realtime.antt =====
-- Two threads, a batch on its way to disk, and `stop`.
use piggy_engine.Prelude.{ℕ, List, [], ◌∷◌, Bool}
use piggy_engine.Prelude.{length, leb, if◌then◌else◌, ◌==◌}
use piggy_engine.Memory.Realtime.World.{StoredDoc}
use piggy_engine.Memory.Realtime.Manager.{Work, take, commit, Event, add, work}

-- A thread freezes its segment at two documents.
abbrev at_two : List (StoredDoc ℕ) → Bool
at_two docs = leb 2 (length docs)

abbrev events : List (Event ℕ)
events = add 5 ∷ add 6 ∷ add 7 ∷ work take ∷ add 8 ∷ work commit ∷ add 9 ∷ work take ∷ []

-- The worker commits a batch and takes the next one between the shutdowns.
abbrev between : ℕ → List Work
between i = if i == 1 then commit ∷ take ∷ [] else []
