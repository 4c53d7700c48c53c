-- ===== src/Persister.antt =====
-- src/tester1/persister.go: what a server has saved. A byte slice is `none` for nil, else the number
-- of its array in the heap, so that a slice that a caller keeps can be told from what is saved.
pub mod Isolation
mod Tests
use mit.Base.{ℕ, Option, none, some, List, [], ◌∷◌, ◌++◌, or_else, length, get_elem?}

abbrev pub Slice : Type 0
Slice = Option ℕ

abbrev pub Heap : Type 0
Heap = List (List ℕ)

-- The bytes of a slice.
abbrev pub bytes_of : Heap → Slice → List ℕ
bytes_of heap none = []
bytes_of heap (some r) = or_else (get_elem? heap r) []

pub record Persister : Type 0 where
  pub raftstate : Slice
  pub snapshot : Slice

unfoldable pub make_persister : Persister
make_persister = record { raftstate = none; snapshot = none }

-- clone: a new array with the same bytes
unfoldable pub clone : Slice → Heap → Slice × Heap
clone orig heap = (some (length heap), heap ++ bytes_of heap orig ∷ [])

-- Copy: the new Persister has the same arrays.
unfoldable pub copy : Persister → Persister
unfolding make_persister
copy ps = record make_persister { raftstate = ps.raftstate; snapshot = ps.snapshot }

unfoldable pub read_raft_state : Persister → Heap → Slice × Heap
unfolding clone
read_raft_state ps heap = clone ps.raftstate heap

unfoldable pub raft_state_size : Persister → Heap → ℕ
raft_state_size ps heap = length (bytes_of heap ps.raftstate)

unfoldable pub save : Slice → Slice → Persister → Heap → Persister × Heap
unfolding clone
save raftstate snapshot ps heap =
    let (r, heap1) = clone raftstate heap in
    let (s, heap2) = clone snapshot heap1 in (record ps { raftstate = r; snapshot = s }, heap2)

unfoldable pub read_snapshot : Persister → Heap → Slice × Heap
unfolding clone
read_snapshot ps heap = clone ps.snapshot heap

unfoldable pub snapshot_size : Persister → Heap → ℕ
snapshot_size ps heap = length (bytes_of heap ps.snapshot)
