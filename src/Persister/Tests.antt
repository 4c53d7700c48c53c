-- ===== src/Persister/Tests.antt =====
-- A caller that changes its slices after Save and after ReadRaftState, and the theorem at it.
use mit.Base.{none, some, List, [], ◌∷◌, ◌≡◌, refl, contains, nat_eq}
use mit.Persister.Isolation.{
  World, Action, saves, reads_raft_state, restarts, makes, writes, run, saved, last_saved,
  IsIsolated, run-IsIsolated,
}

abbrev empty_world : World
empty_world = record { ps = record { raftstate = none; snapshot = none }; heap = []; held = [] }

-- The caller's slice is array 0; what is saved is in 1 and 2, and what is read is in 3.
abbrev actions : List Action
actions =
    makes (7 ∷ [])
    ∷ saves (some 0) none
    ∷ writes 0 (8 ∷ [])
    ∷ reads_raft_state
    ∷ writes 3 (9 ∷ [])
    ∷ restarts
    ∷ []

abbrev after_actions : World
after_actions = record {
  ps = record { raftstate = some 1; snapshot = some 2 };
  heap = (8 ∷ []) ∷ (7 ∷ []) ∷ [] ∷ (9 ∷ []) ∷ [];
  held = 3 ∷ 0 ∷ [];
}

run-actions : run actions empty_world ≡ some after_actions
unfolding run contains
run-actions = refl

empty_world-IsIsolated : IsIsolated empty_world
unfolding contains
empty_world-IsIsolated = record { raftstate = tt; snapshot = tt; held_below = λ r h. cc h }

last_saved-actions : last_saved actions empty_world ([], []) ≡ (7 ∷ [], [])
unfolding last_saved contains
last_saved-actions = refl

run-IsIsolated_example :
    IsIsolated after_actions
    × (saved after_actions ≡ last_saved actions empty_world (saved empty_world))
run-IsIsolated_example =
    run-IsIsolated actions empty_world after_actions empty_world-IsIsolated run-actions
