-- ===== src/Persister/Isolation.antt =====
-- What is saved, and the slices that callers hold.
use mit.Base.{
  ℕ, zero, suc, ◌≤◌, ◌<◌, Bool, true, false, ◌&&◌, Option, none, some, List, [], ◌∷◌, ◌++◌,
  if◌then◌else◌, nat_eq, nat_beq, nat_beq_iff, length, get_elem?, set, contains, length-append,
  length-set, get_elem?-set, get_elem?-below, ◌≡◌, refl, sym, ◌∙◌, arith, Bool-cases, Option-cases,
  ap, subst, inl, inr,
}
use mit.Persister.{Slice, Heap, bytes_of, Persister, copy, read_raft_state, save, read_snapshot}

-- The saved state, the heap, and the arrays that callers hold slices of.
pub record World : Type 0 where
  pub ps : Persister
  pub heap : Heap
  pub held : List ℕ

-- What a caller does: a call of the Persister, or a new slice, or a write to a slice that it holds.
pub data Action : Type 0 where
  saves : (raftstate snapshot : Slice) → Action
  reads_raft_state reads_snapshot restarts : Action
  makes : List ℕ → Action
  writes : ℕ → List ℕ → Action

abbrev pub holds : List ℕ → Slice → Bool
holds held none = true
holds held (some r) = contains r held

abbrev pub add_held : Slice → List ℕ → List ℕ
add_held none held = held
add_held (some r) held = r ∷ held

abbrev pub take : Slice × Heap → World → World
take (r, heap) w = record w { heap = heap; held = add_held r w.held }

-- `none` for an action on a slice that the caller does not hold.
unfoldable pub act : Action → World → Option World
unfolding save copy read_raft_state read_snapshot
act (saves r s) w =
    let (ps, heap) = save r s w.ps w.heap in
    if holds w.held r && holds w.held s then some (record w { ps = ps; heap = heap }) else none
act reads_raft_state w = some (take (read_raft_state w.ps w.heap) w)
act reads_snapshot w = some (take (read_snapshot w.ps w.heap) w)
act restarts w = some (record w { ps = copy w.ps })
act (makes bytes) w = some (take (some (length w.heap), w.heap ++ bytes ∷ []) w)
act (writes r bytes) w =
    if contains r w.held then some (record w { heap = set w.heap r bytes }) else none

unfoldable pub run : List Action → World → Option World
unfolding act
run [] w = some w
run (a ∷ as_) w = elim (act a w) [ none ↦ none | some w1 ↦ run as_ w1 ]

abbrev pub saved : World → List ℕ × List ℕ
saved w = (bytes_of w.heap w.ps.raftstate, bytes_of w.heap w.ps.snapshot)

-- The bytes of a Save, as they are when it is called.
abbrev pub after_act : Action → World → List ℕ × List ℕ → List ℕ × List ℕ
after_act (saves r s) w so_far = (bytes_of w.heap r, bytes_of w.heap s)
after_act a w so_far = so_far

-- The bytes of the last Save.
unfoldable pub last_saved : List Action → World → List ℕ × List ℕ → List ℕ × List ℕ
unfolding act
last_saved [] w so_far = so_far
last_saved (a ∷ as_) w so_far = elim (act a w) [
  | none ↦ so_far
  | some w1 ↦ last_saved as_ w1 (after_act a w so_far)
]

-- Callers hold no array of the saved state.
abbrev pub IsPrivate : Slice → World → Type 0
IsPrivate none w = Unit
IsPrivate (some r) w = (contains r w.held ≡ false) × (r < length w.heap)

pub record IsIsolated (w : World) : Type 0 where
  pub raftstate : IsPrivate w.ps.raftstate w
  pub snapshot : IsPrivate w.ps.snapshot w
  pub held_below : (r : ℕ) → contains r w.held ≡ true → r < length w.heap

get_elem?-append :
    (heap : Heap) (x : List ℕ) (r : ℕ)
    → r < length heap
    → get_elem? (heap ++ x ∷ []) r ≡ get_elem? heap r
get_elem?-append [] x r h = absurd (omega arith)
get_elem?-append (y ∷ heap) x zero h = refl
get_elem?-append (y ∷ heap) x (suc r) h = get_elem?-append heap x r (omega arith)

get_elem?_last : (heap : Heap) (x : List ℕ) → get_elem? (heap ++ x ∷ []) (length heap) ≡ some x
get_elem?_last [] x = refl
get_elem?_last (y ∷ heap) x = get_elem?_last heap x

length-snoc : (heap : Heap) (x : List ℕ) → length (heap ++ x ∷ []) ≡ suc (length heap)
length-snoc heap x = omega (arith, length-append heap (x ∷ []))

-- A new array in a caller's hands.
take-new :
    (w : World) (x : List ℕ)
    → IsIsolated w
    → let w' = take (some (length w.heap), w.heap ++ x ∷ []) w in
      IsIsolated w' × (saved w' ≡ saved w)
unfolding contains
take-new w x iso = (
  record {
    raftstate = priv w.ps.raftstate iso.raftstate;
    snapshot = priv w.ps.snapshot iso.snapshot;
    held_below = λ r m.
        ground (arith, iso.held_below r, length-snoc w.heap x, nat_beq_iff r (length w.heap));
  },
  cc (same w.ps.raftstate iso.raftstate, same w.ps.snapshot iso.snapshot),
)
  where
    priv :
        (s : Slice) → IsPrivate s w → IsPrivate s (take (some (length w.heap), w.heap ++ x ∷ []) w)
    priv none p = tt
    priv (some r) p = (
      ground (arith, p.0, p.1, nat_beq_iff r (length w.heap)),
      omega (arith, p.1, length-snoc w.heap x),
    )

    same : (s : Slice) → IsPrivate s w → bytes_of (w.heap ++ x ∷ []) s ≡ bytes_of w.heap s
    same none p = refl
    same (some r) p = ground (arith, get_elem?-append w.heap x r p.1)

holds_below :
    (s : Slice) (w : World) (x : List ℕ)
    → IsIsolated w
    → holds w.held s ≡ true
    → bytes_of (w.heap ++ x ∷ []) s ≡ bytes_of w.heap s
holds_below none w x iso h = refl
holds_below (some r) w x iso h = ground (arith, get_elem?-append w.heap x r (iso.held_below r h))

saves-step :
    (r s : Slice) (w w' : World)
    → IsIsolated w
    → act (saves r s) w ≡ some w'
    → IsIsolated w' × (saved w' ≡ (bytes_of w.heap r, bytes_of w.heap s))
unfolding act
saves-step r s w w' iso h =
    let br = bytes_of w.heap r in
    let heap1 = w.heap ++ br ∷ [] in
    let bs = bytes_of heap1 s in
    let heap2 = heap1 ++ bs ∷ [] in
    let w1 : World = record w {
      ps = record { raftstate = some (length w.heap); snapshot = some (length heap1) };
      heap = heap2;
    } in
    let has_r : holds w.held r ≡ true = ground arith in
    let has_s : holds w.held s ≡ true = ground arith in
    let is : w1 ≡ w' = ground arith in
    let size1 = length-snoc w.heap br in
    let size2 = length-snoc heap1 bs in
    let at_r : get_elem? heap2 (length w.heap) ≡ some br =
      get_elem?-append heap1 bs (length w.heap) (omega (arith, size1)) ∙ get_elem?_last w.heap br in
    let at_s : get_elem? heap2 (length heap1) ≡ some bs = get_elem?_last heap1 bs in
    let kept : bs ≡ bytes_of w.heap s = holds_below s w br iso has_s in
    subst (λ (v : World). IsIsolated v × (saved v ≡ (br, bytes_of w.heap s))) is
      (
        record {
          raftstate = (fresh (length w.heap) (omega arith), omega (arith, size1, size2));
          snapshot = (fresh (length heap1) (omega (arith, size1)), omega (arith, size2));
          held_below = λ x m. omega (arith, iso.held_below x m, size1, size2);
        },
        cc (at_r, at_s, kept),
      )
  where
    fresh : (x : ℕ) → length w.heap ≤ x → contains x w.held ≡ false
    fresh x le = elim (Bool-cases (contains x w.held)) [
      | inr free ↦ free
      | inl kept ↦ absurd (omega (arith, iso.held_below x kept))
    ]

writes-step :
    (r : ℕ) (bytes : List ℕ) (w w' : World)
    → IsIsolated w
    → act (writes r bytes) w ≡ some w'
    → IsIsolated w' × (saved w' ≡ saved w)
unfolding act
writes-step r bytes w w' iso h =
    let mine : contains r w.held ≡ true = ground arith in
    let w1 : World = record w { heap = set w.heap r bytes } in
    let is : w1 ≡ w' = ground arith in
    let size = length-set w.heap r bytes in
    subst (λ (v : World). IsIsolated v × (saved v ≡ saved w)) is
      (
        record {
          raftstate = priv w.ps.raftstate iso.raftstate;
          snapshot = priv w.ps.snapshot iso.snapshot;
          held_below = λ x m. omega (arith, iso.held_below x m, size);
        },
        cc (same mine w.ps.raftstate iso.raftstate, same mine w.ps.snapshot iso.snapshot),
      )
  where
    priv : (s : Slice) → IsPrivate s w → IsPrivate s (record w { heap = set w.heap r bytes })
    priv none p = tt
    priv (some x) p = (p.0, omega (arith, p.1, length-set w.heap r bytes))

    same :
        contains r w.held ≡ true
        → (s : Slice) → IsPrivate s w
        → bytes_of (set w.heap r bytes) s ≡ bytes_of w.heap s
    same mine none p = refl
    same mine (some x) p =
        let (old, at_r) = get_elem?-below w.heap r (iso.held_below r mine) in
        let other : nat_beq x r ≡ false = elim (Bool-cases (nat_beq x r)) [
          | inr e ↦ e
          | inl e ↦ absurd (cc (ap (λ y. contains y w.held) ((nat_beq_iff x r).0 e), p.0, mine))
        ] in
        ground (arith, get_elem?-set w.heap r x bytes old at_r, other)

act-step :
    (a : Action) (w w' : World)
    → IsIsolated w
    → act a w ≡ some w'
    → IsIsolated w' × (saved w' ≡ after_act a w (saved w))
unfolding act
act-step (saves r s) w w' iso h = saves-step r s w w' iso h
act-step reads_raft_state w w' iso h =
    let is : take (read_raft_state w.ps w.heap) w ≡ w' = cc h in
    subst (λ (v : World). IsIsolated v × (saved v ≡ saved w)) is
      (take-new w (bytes_of w.heap w.ps.raftstate) iso)
act-step reads_snapshot w w' iso h =
    let is : take (read_snapshot w.ps w.heap) w ≡ w' = cc h in
    subst (λ (v : World). IsIsolated v × (saved v ≡ saved w)) is
      (take-new w (bytes_of w.heap w.ps.snapshot) iso)
act-step restarts w w' iso h =
    let is : record w { ps = copy w.ps } ≡ w' = cc h in
    subst (λ (v : World). IsIsolated v × (saved v ≡ saved w)) is
      (
        record { raftstate = iso.raftstate; snapshot = iso.snapshot; held_below = iso.held_below },
        refl,
      )
act-step (makes bytes) w w' iso h =
    let is : take (some (length w.heap), w.heap ++ bytes ∷ []) w ≡ w' = cc h in
    subst (λ (v : World). IsIsolated v × (saved v ≡ saved w)) is (take-new w bytes iso)
act-step (writes r bytes) w w' iso h = writes-step r bytes w w' iso h

-- Whatever callers do, a Persister holds the bytes of the last Save as they were when it was called:
-- no caller holds an array of the saved state before, and then none does after.
pub run-IsIsolated :
    (as_ : List Action) (w w' : World)
    → IsIsolated w
    → run as_ w ≡ some w'
    → IsIsolated w' × (saved w' ≡ last_saved as_ w (saved w))
unfolding run last_saved
run-IsIsolated [] w w' iso h =
    let is : w ≡ w' = cc h in
    subst (λ (v : World). IsIsolated v × (saved v ≡ saved w)) is (iso, refl)
run-IsIsolated (a ∷ as_) w w' iso h = elim (Option-cases (act a w)) [
  | inl e ↦ absurd (ground arith)
  | inr (w1, e) ↦
      let (iso1, is) = act-step a w w1 iso e in
      let (iso', kept) = run-IsIsolated as_ w1 w' iso1 (ground arith) in
      let next : last_saved as_ w1 (after_act a w (saved w)) ≡ last_saved (a ∷ as_) w (saved w) =
        sym (
          ap
            (λ o. elim o [ none ↦ saved w | some w2 ↦ last_saved as_ w2 (after_act a w (saved w)) ])
            e) in
      (iso', kept ∙ (ap (last_saved as_ w1) is ∙ next))
]
