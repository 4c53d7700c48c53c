-- ===== src/Models/Tests.antt =====
-- The model on a short history, and the theorems at it.
use mit.Base.{ℕ, ◌+◌, ◌≤◌, String, false, List, [], ◌∷◌, ◌≡◌, refl, nat_eq, string_eq, arith}
use mit.Base.Maps.{lookup, insert}
use mit.Models.{KvState, Operation, kv_state, step_kv, init, partition}
use mit.Models.Versions.{Accepts, nothing, accepted, puts, Accepts-version}
use mit.Models.Partition.{IsPartition, partition-IsPartition}

abbrev put : String → String → ℕ → String → Operation
put key value version err = record {
  client_id = 0;
  input = record { op = 1; key = key; value = value; version = version };
  output = record { value = ""; version = 0; err = err };
}

abbrev get : String → String → Operation
get key value = record {
  client_id = 0;
  input = record { op = 0; key = key; value = ""; version = 0 };
  output = record { value = value; version = 0; err = "OK" };
}

abbrev history : List Operation
history =
    put "a" "x" 0 "OK"
    ∷ put "a" "y" 0 "ErrVersion"
    ∷ get "a" "x"
    ∷ put "a" "z" 1 "ErrMaybe"
    ∷ get "a" "z"
    ∷ []

abbrev last_state : KvState
last_state = record { value = "z"; version = 2 }

history-Accepts : Accepts init history last_state
unfolding step_kv init
history-Accepts =
    accepted refl (accepted refl (accepted refl (accepted refl (accepted refl nothing))))

stale_get :
    step_kv last_state (get "a" "x").input (get "a" "x").output ≡ (false, kv_state last_state)
unfolding step_kv
stale_get = refl

Accepts-version_example :
    (init.version + puts "OK" history ≤ 2)
    × (2 ≤ init.version + puts "OK" history + puts "ErrMaybe" history)
unfolding init
Accepts-version_example = Accepts-version init last_state history history-Accepts (omega arith)

partition_two :
    partition (put "b" "x" 0 "OK" ∷ put "a" "y" 0 "OK" ∷ get "b" "x" ∷ [])
    ≡ (put "a" "y" 0 "OK" ∷ []) ∷ (put "b" "x" 0 "OK" ∷ get "b" "x" ∷ []) ∷ []
unfolding partition lookup insert
partition_two = refl

partition-IsPartition_example : IsPartition history (partition history)
partition-IsPartition_example = partition-IsPartition history
