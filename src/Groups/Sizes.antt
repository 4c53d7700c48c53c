-- ===== src/Groups/Sizes.antt =====
-- LogSize and SnapshotSize: the largest size over the servers.
use mit.Base.{
  ℕ, ◌≤◌, some, List, [], ◌∷◌, ltb, get_elem?, All, ◌≡◌, refl, ◌⊎◌, inl, inr, arith, Bool-cases,
}
use mit.Base.Exec.{returns}
use mit.Persister.{Heap, Persister, raft_state_size, snapshot_size}
use mit.Groups.{Server}
use mit.Groups.Servers.{World, largest, log_size, snapshot_size_of}

-- The server has the Persister `ps`.
pub record HasSaved (persisters : List Persister) (s : Server) (ps : Persister) : Type 0 where
  pub pointer : ℕ
  pub saved : s.saved ≡ some pointer
  pub there : get_elem? persisters pointer ≡ some ps

abbrev pub AllSaved : List Persister → List Server → List Persister → Type 0
AllSaved persisters [] [] = Unit
AllSaved persisters (s ∷ srvs) (ps ∷ pss) = HasSaved persisters s ps × AllSaved persisters srvs pss
AllSaved persisters _ _ = ⊥

-- The number is the size of one of them, or the one to start with.
abbrev pub Attained : (Persister → ℕ) → ℕ → List Persister → ℕ → Type 0
Attained size from [] m = m ≡ from
Attained size from (ps ∷ pss) m = (m ≡ size ps) ⊎ Attained size from pss m

largest-bound :
    (size : Persister → ℕ) (srvs : List Server) (persisters pss : List Persister) (from : ℕ)
    → AllSaved persisters srvs pss
    → (m : ℕ) × (largest size srvs persisters from ≡ returns m)
      × (from ≤ m)
      × All (λ ps. size ps ≤ m) pss
      × Attained size from pss m
unfolding largest
largest-bound size [] persisters [] from h = (from, refl, omega arith, tt, refl)
largest-bound size [] persisters (ps ∷ pss) from h = absurd h
largest-bound size (s ∷ srvs) persisters [] from h = absurd h
largest-bound size (s ∷ srvs) persisters (ps ∷ pss) from h =
    elim (Bool-cases (ltb from (size ps))) [
      | inl more ↦
          let (m, ran, low, all_in, got) = largest-bound size srvs persisters pss (size ps) h.1 in
          (
            m,
            ground (arith, h.0.saved, h.0.there, more, ran),
            ground (arith, more, low),
            (low, all_in),
            first pss got,
          )
      | inr less ↦
          let (m, ran, low, all_in, got) = largest-bound size srvs persisters pss from h.1 in
          (
            m,
            ground (arith, h.0.saved, h.0.there, less, ran),
            low,
            (ground (arith, less, low), all_in),
            inr got,
          )
    ]
  where
    first :
        (qss : List Persister) {m : ℕ}
        → Attained size (size ps) qss m
        → (m ≡ size ps) ⊎ Attained size from qss m
    first [] got = inl got
    first (q ∷ qss) got = elim got [
      | inl e ↦ inr (inl e)
      | inr rest ↦ elim (first qss rest) [ inl e ↦ inl e | inr e ↦ inr (inr e) ]
    ]

-- LogSize and SnapshotSize of a group in which every server has a Persister return: no server's size
-- is larger, and it is the size of one of them, or 0.
pub sizes_bound :
    (heap : Heap) (w : World) (pss : List Persister)
    → AllSaved w.persisters w.sg.srvs pss
    → (log snap : ℕ) × (log_size heap w ≡ returns log)
      × (snapshot_size_of heap w ≡ returns snap)
      × All (λ ps. raft_state_size ps heap ≤ log) pss
      × All (λ ps. snapshot_size ps heap ≤ snap) pss
      × Attained (λ ps. raft_state_size ps heap) 0 pss log
      × Attained (λ ps. snapshot_size ps heap) 0 pss snap
unfolding log_size snapshot_size_of
sizes_bound heap w pss h =
    let (log, ran, low, all_in, got) =
      largest-bound (λ ps. raft_state_size ps heap) w.sg.srvs w.persisters pss 0 h in
    let (snap, ran', low', all_in', got') =
      largest-bound (λ ps. snapshot_size ps heap) w.sg.srvs w.persisters pss 0 h in
    (log, snap, ran, ran', all_in, all_in', got, got')
