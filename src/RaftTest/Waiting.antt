-- ===== src/RaftTest/Waiting.antt =====
-- src/raft1/test.go: wait, which polls nCommitted. A look is the state of the test as one iteration
-- finds it, with the term of each peer; the code makes at most thirty.
use mit.Base.{
  ℕ, zero, suc, ◌≤◌, Bool, true, false, not, Option, List, [], ◌∷◌, if◌then◌else◌, ltb, leb, Eq,
  nat_eq, ◌≡◌, arith, Bool-cases, inl, inr, subst,
}
use mit.Base.Int.{ℤ, negsuc, ltb_ℤ}
use mit.Base.Exec.{Exec, returns, fatal, panics, ◌>>=◌, >>=-eq-returns}
use mit.RaftTest.{Rfsrv, Test, n_committed}
use mit.RaftTest.Committed.{IsCount, n_committed-IsCount}

pub record Look (V : Type 0) : Type 0 where
  pub ts : Test V
  pub terms : List ℤ

abbrev pub max_looks : ℕ
max_looks = 30

-- What wait returns: -1, or the command.
pub data Waited (V : Type 0) : Type 0 where
  moved_on : Waited V
  decided : Option V → Waited V

module _ {V : Type 0} ⦃e : Eq V⦄ where
  -- "someone has moved on"; GetState of a peer that is not set panics.
  unfoldable pub beyond : List (Rfsrv V) → List ℤ → ℤ → Exec Bool
  beyond [] terms start = returns false
  beyond (rs ∷ srvs) [] start = if not rs.raft then panics else returns false
  beyond (rs ∷ srvs) (t ∷ terms) start =
      let rest = beyond srvs terms start in
      if not rs.raft then panics else if ltb_ℤ start t then returns true else rest

  -- The loop: whether someone has moved on.
  unfoldable pub wait_loop : ℕ → ℤ → ℕ → ℤ → List (Look V) → Exec Bool
  unfolding n_committed beyond
  wait_loop zero index n start looks = returns false
  wait_loop (suc iters) index n start [] = returns false
  wait_loop (suc iters) index n start (look ∷ looks) =
      let later = wait_loop iters index n start looks in
      n_committed index look.ts >>= λ (r : ℕ × Option V).
      if leb n r.0
      then returns false
      else if ltb_ℤ (negsuc 0) start
      then (beyond look.ts.srvs look.terms start >>= λ (moved : Bool).
          if moved then returns true else later)
      else later

  -- wait; `last` is the state after the loop.
  unfoldable pub wait : ℤ → ℕ → ℤ → List (Look V) → Test V → Exec (Waited V)
  unfolding wait_loop
  wait index n start looks last = wait_loop max_looks index n start looks >>= λ (moved : Bool).
      if moved
      then returns moved_on
      else (n_committed index last >>= λ (r : ℕ × Option V).
          if ltb r.0 n then fatal else returns (decided r.1))

  -- If wait returns a command, then at least `n` servers have an entry at the index, and it is that
  -- command for all of them.
  pub wait-IsCount :
      (index : ℤ) (n : ℕ) (start : ℤ) (looks : List (Look V)) (last : Test V) (cmd : Option V)
      → wait index n start looks last ≡ returns (decided cmd)
      → (count : ℕ) × (n ≤ count) × IsCount index last.srvs count cmd
  unfolding wait
  wait-IsCount index n start looks last cmd h =
      let (moved, loop, rest) = >>=-eq-returns (wait_loop max_looks index n start looks) _ h in
      elim (Bool-cases moved) [
        | inl gone ↦ absurd (ground arith)
        | inr here ↦
            let after : (n_committed index last >>= λ (r : ℕ × Option V).
            if ltb r.0 n then fatal else returns (decided r.1))
                ≡ returns (decided cmd) =
              rw here at rest in
            let ((count, r), ran, done) = >>=-eq-returns (n_committed index last) _ after in
            let same : r ≡ cmd = ground arith in
            (
              count,
              ground arith,
              subst (IsCount index last.srvs count) same
                  (n_committed-IsCount index last count r ran),
            )
      ]
