-- ===== src/Runtime/Role/Selection.antt =====
-- The choice of the first controller, and the role kept across sessions.
use mouse_without_borders.Base.{
  ◌≡◌, ◌↔◌, ◌⊎◌, Bool, true, false, not, String, none, some, arith, eq_iff,
}
use mouse_without_borders.Runtime.Role.{
  InputDirectionCapabilities, complete, select_initial_controller, committed_role, belongs_to,
}

-- Both peers choose the same controller: exchanging the two sides, with the preference turned
-- round, changes nothing.
pub select_initial_controller_symm :
    (connector listener : String) (prefer : Bool) (c l : InputDirectionCapabilities)
    → select_initial_controller connector listener prefer c l
      ≡ select_initial_controller listener connector (not prefer) l c
unfolding select_initial_controller
select_initial_controller_symm connector listener prefer c l = ground arith

-- A chosen controller is one of the two, in a direction that can be captured and injected; nobody
-- is chosen exactly if neither direction can.
pub select_initial_controller_capable :
    (connector listener : String) (prefer : Bool) (c l : InputDirectionCapabilities)
    → ((who : String)
        → select_initial_controller connector listener prefer c l ≡ some who
        → ((who ≡ connector) × (complete c ≡ true)) ⊎ ((who ≡ listener) × (complete l ≡ true)))
      × ((select_initial_controller connector listener prefer c l ≡ none)
          ↔ ((complete c ≡ false) × (complete l ≡ false)))
unfolding select_initial_controller
select_initial_controller_capable connector listener prefer c l =
    ((λ who h. ground arith), ground arith)

-- A saved role is used only for the pair that it was saved for.
pub belongs_to-committed_role :
    (who first second : String)
    → (belongs_to (committed_role who) first second ≡ true) ↔ ((who ≡ first) ⊎ (who ≡ second))
unfolding belongs_to committed_role
belongs_to-committed_role who first second = ground (arith, eq_iff who first, eq_iff who second)
