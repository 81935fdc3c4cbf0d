-- ===== src/Transitions/Common.antt =====
-- transitions/common.go: the predefined states and Typical.
use go_fsm.Base.{string_eq, [], ◌∷◌}
use go_fsm.Transitions.Config.{StateMap}

abbrev pub typical : StateMap
typical =
    ("New", "Booting" ∷ "Error" ∷ [])
    ∷ ("Booting", "Running" ∷ "Error" ∷ [])
    ∷ ("Running", "Reloading" ∷ "Stopping" ∷ "Error" ∷ [])
    ∷ ("Reloading", "Running" ∷ "Error" ∷ [])
    ∷ ("Stopping", "Stopped" ∷ "Error" ∷ [])
    ∷ ("Stopped", "New" ∷ "Error" ∷ [])
    ∷ ("Error", "Error" ∷ "Stopping" ∷ "Stopped" ∷ [])
    ∷ ("Unknown", "Unknown" ∷ [])
    ∷ []
