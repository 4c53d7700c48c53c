-- ===== src/RaftTest/One.antt =====
-- src/raft1/test.go: one, which submits a command and polls nCommitted. What Start answers, and the
-- state of the test at each poll, are arguments; the code goes on for ten seconds.
use mit.Base.{
  ℕ, ◌≤◌, ◌<◌, Bool, true, false, not, ◌&&◌, Option, none, some, List, [], ◌∷◌, if◌then◌else◌, ltb,
  leb, ◌==◌, Eq, nat_eq, ◌≡◌, ◌≢◌, refl, arith, Bool-cases, inl, inr, subst, ap,
}
use mit.Base.Int.{ℤ, negsuc, beq_ℤ}
use mit.Base.Exec.{Exec, returns, fatal, ◌>>=◌, >>=-eq-returns}
use mathlib.Core.List.{Memᴰ}
use mit.RaftTest.{Test, n_committed}
use mit.RaftTest.Committed.{IsCount, n_committed-IsCount}

-- One iteration: whether the test has finished, the index that each server in turn gives (`none` for
-- one that is not connected, not set, or no leader), and the states at the polls.
pub record Round (V : Type 0) : Type 0 where
  pub finished : Bool
  pub starts : List (Option ℤ)
  pub looks : List (Test V)

-- `index`, which is -1 when nobody has taken the command.
unfoldable pub first_start : List (Option ℤ) → ℤ
first_start [] = negsuc 0
first_start (none ∷ starts) = first_start starts
first_start (some index ∷ starts) = index

module _ {V : Type 0} ⦃e : Eq V⦄ where
  abbrev pub is_cmd : Option V → V → Bool
  is_cmd none cmd = false
  is_cmd (some cmd1) cmd = cmd1 == cmd

  -- The inner loop, of two seconds: whether there is agreement.
  unfoldable pub poll : V → ℕ → ℤ → List (Test V) → Exec Bool
  unfolding n_committed
  poll cmd expected index [] = returns false
  poll cmd expected index (ts ∷ looks) =
      let later = poll cmd expected index looks in
      n_committed index ts >>= λ (r : ℕ × Option V).
      if ltb 0 r.0 && leb expected r.0
      then (if is_cmd r.1 cmd then returns true else later)
      else later

  -- one; `finished` is the last call of checkFinished.
  unfoldable pub one : V → ℕ → Bool → List (Round V) → Bool → Exec ℤ
  unfolding first_start poll
  one cmd expected retry [] finished = if not finished then fatal else returns (negsuc 0)
  one cmd expected retry (round ∷ rounds) finished =
      let stop = if not finished then fatal else returns (negsuc 0) in
      let next = one cmd expected retry rounds finished in
      let index = first_start round.starts in
      if round.finished
      then stop
      else if not (beq_ℤ index (negsuc 0))
      then (poll cmd expected index round.looks >>= λ (agreed : Bool).
          if agreed then returns index else if not retry then fatal else next)
      else next

  poll-IsCount :
      (cmd : V) (expected : ℕ) (index : ℤ) (looks : List (Test V))
      → poll cmd expected index looks ≡ returns true
      → (ts : Test V) × Memᴰ ts looks
        × (count : ℕ) × (0 < count)
        × (expected ≤ count)
        × IsCount index ts.srvs count (some cmd)
  unfolding poll
  poll-IsCount cmd expected index [] h = absurd (cc h)
  poll-IsCount cmd expected index (ts ∷ looks) h =
      let ((count, r), ran, rest) = >>=-eq-returns (n_committed index ts) _ h in
      elim (Bool-cases (ltb 0 count && leb expected count && is_cmd r cmd)) [
        | inr no_match ↦
            let (ts', m, count', some_have, enough, is) =
              poll-IsCount cmd expected index looks (ground arith) in
            (ts', Memᴰ.tail m, count', some_have, enough, is)
        | inl agreed ↦
            let same : r ≡ some cmd = is_some_cmd r (ground arith) in
            (
              ts,
              Memᴰ.head refl,
              count,
              ground arith,
              ground arith,
              subst (IsCount index ts.srvs count) same (n_committed-IsCount index ts count r ran),
            )
      ]
    where
      is_some_cmd : (o : Option V) → is_cmd o cmd ≡ true → o ≡ some cmd
      is_some_cmd none h = cc h
      is_some_cmd (some c) h = ap some ((e.beq_iff c cmd).0 h)

  -- If one returns an index, not -1, then at one of its polls at least the expected servers, and one
  -- in any case, had an entry at that index, which was the command for all of them.
  pub one-IsCount :
      (cmd : V) (expected : ℕ) (retry : Bool) (rounds : List (Round V)) (finished : Bool)
      (index : ℤ)
      → one cmd expected retry rounds finished ≡ returns index
      → index ≢ negsuc 0
      → (round : Round V) × (ts : Test V) × (count : ℕ) × Memᴰ round rounds
        × Memᴰ ts round.looks
        × (0 < count)
        × (expected ≤ count)
        × IsCount index ts.srvs count (some cmd)
  unfolding one
  one-IsCount cmd expected retry [] finished index h ne = absurd (ground arith)
  one-IsCount cmd expected retry (round ∷ rounds) finished index h ne =
      elim (Bool-cases round.finished) [
        | inl over ↦ absurd (ground arith)
        | inr on ↦ elim (Bool-cases (beq_ℤ (first_start round.starts) (negsuc 0))) [
          | inl nobody ↦
              let (r, ts, count, m, look, some_have, enough, is) =
                one-IsCount cmd expected retry rounds finished index (ground arith) ne in
              (r, ts, count, Memᴰ.tail m, look, some_have, enough, is)
          | inr taken ↦
              let polled : (poll cmd expected (first_start round.starts) round.looks
                    >>= λ (agreed : Bool).
                        if agreed
                        then returns (first_start round.starts)
                        else if not retry
                        then fatal
                        else one cmd expected retry rounds finished)
                  ≡ returns index =
                ground arith in
              let (agreed, ran, rest) =
                >>=-eq-returns (poll cmd expected (first_start round.starts) round.looks) _
                  polled in
              elim (Bool-cases agreed) [
                | inr failed ↦
                    let (r, ts, count, m, look, some_have, enough, is) =
                      one-IsCount cmd expected retry rounds finished index (ground arith) ne in
                    (r, ts, count, Memᴰ.tail m, look, some_have, enough, is)
                | inl yes_agreed ↦
                    let same : first_start round.starts ≡ index = ground arith in
                    let (ts, m, count, some_have, enough, is) =
                      poll-IsCount cmd expected index round.looks (
                        subst (λ i. poll cmd expected i round.looks ≡ returns true) same
                          (rw yes_agreed at ran)) in
                    (round, ts, count, Memᴰ.head refl, m, some_have, enough, is)
              ]
        ]
      ]
