-- ===== src/RaftTest.antt =====
-- src/raft1/server.go and src/raft1/test.go: the servers of the Raft tests, which copy what each
-- peer commits, and the checks of the tests on them. Commands are values of any type with `==`.
-- What the peers answer (terms, leadership) and what arrives on an apply channel are arguments.
pub mod Agreement
pub mod Holes
pub mod Committed
pub mod Waiting
pub mod One
pub mod Leaders
pub mod OneLeader
pub mod Snapshots
mod Tests
use mit.Base.{
  ℕ, zero, suc, ◌+◌, ◌%◌, ◌≤◌, String, Bool, true, false, not, ◌&&◌, ◌||◌, Option, none, some, List,
  [], ◌∷◌, ◌++◌, if◌then◌else◌, ltb, is_some, or_else, ◌==◌, Eq, nat_eq, length, get_elem?, set,
}
use mit.Base.Int.{ℤ, pos, negsuc, ◌+ℤ◌, ltb_ℤ, int_eq, beq_ℤ}
use mit.Base.Maps.{Map, keys, lookup, has, insert}
use mit.Base.Exec.{Exec, returns, fatal, panics, ◌>>=◌}

-- raftapi.ApplyMsg
pub record ApplyMsg (V : Type 0) : Type 0 where
  pub command_valid : Bool
  pub command : V
  pub command_index : ℤ
  pub snapshot_valid : Bool
  pub snapshot : Option (List ℕ)
  pub snapshot_term : ℤ
  pub snapshot_index : ℤ

-- `raft` is whether rs.raft is set; `snapshots` are the calls of Raft.Snapshot so far.
pub record Rfsrv (V : Type 0) : Type 0 where
  pub raft : Bool
  pub apply_err : Bool
  pub last_applied : ℤ
  pub logs : Map ℤ V
  pub snapshots : List (ℤ × List ℕ)

pub record Test (V : Type 0) : Type 0 where
  pub srvs : List (Rfsrv V)
  pub max_index : ℤ

abbrev pub snap_shot_interval : ℕ
snap_shot_interval = 10

-- The errors that the checks report, in place of their texts.
pub data ApplyError (V : Type 0) : Type 0 where
  mismatch : (server : ℕ) → (old : V) → ApplyError V
  out_of_order : ℤ → ApplyError V
  bad_snapshot_index : ApplyError V

abbrev pub pred_ℤ : ℤ → ℤ
pred_ℤ i = i +ℤ negsuc 0

module _ {V : Type 0} ⦃e : Eq V⦄ where
  -- rfsrv.Logs
  abbrev pub logs_at : ℤ → Rfsrv V → Option V
  logs_at i rs = lookup i rs.logs

  -- One round of the loop of checkLogs: an entry that differs gives the error.
  abbrev pub see_log : Rfsrv V → ℕ → ℤ → V → Option (ApplyError V) → Option (ApplyError V)
  see_log rs j index v err = elim (logs_at index rs) [
    | none ↦ err
    | some old ↦ if not (old == v) then some (mismatch j old) else err
  ]

  unfoldable pub scan_logs :
      List (Rfsrv V) → ℕ → ℤ → V → Option (ApplyError V) → Option (ApplyError V)
  scan_logs [] j index v err = err
  scan_logs (rs ∷ rest) j index v err = scan_logs rest (suc j) index v (see_log rs j index v err)

  abbrev pub log_entry : ℤ → V → Rfsrv V → Rfsrv V
  log_entry index v rs = record rs { logs = insert index v rs.logs }

  -- checkLogs: the error, whether the entry before is there, and the new state
  unfoldable pub check_logs : ℕ → ApplyMsg V → Test V → Exec (Option (ApplyError V) × Bool × Test V)
  unfolding scan_logs
  check_logs i m ts = elim (get_elem? ts.srvs i) [
    | none ↦ panics
    | some me ↦ returns (
      scan_logs ts.srvs 0 m.command_index m.command none,
      has (pred_ℤ m.command_index) me.logs,
      record ts {
        srvs = set ts.srvs i (log_entry m.command_index m.command me);
        max_index = if ltb_ℤ ts.max_index m.command_index then m.command_index else ts.max_index;
      },
    )
  ]

  abbrev pub order_error : ℤ → Bool → Option (ApplyError V) → Option (ApplyError V)
  order_error index prevok err =
      if ltb_ℤ (pos 1) index && not prevok then some (out_of_order index) else err

  -- The end of a round of both appliers: an error ends the process.
  abbrev pub stop_on : Option (ApplyError V) → Test V → Exec (Test V)
  stop_on none ts = returns ts
  stop_on (some err) ts = fatal

  -- One message in the loop of applier.
  unfoldable pub applier : ℕ → ApplyMsg V → Test V → Exec (Test V)
  unfolding check_logs
  applier i m ts =
      if not m.command_valid
      then returns ts
      else (check_logs i m ts >>= λ (r : Option (ApplyError V) × Bool × Test V).
          stop_on (order_error m.command_index r.1 r.0) r.2)

  -- The whole loop, for the messages of all the servers in the order of their handling.
  unfoldable pub applies : List (ℕ × ApplyMsg V) → Test V → Exec (Test V)
  applies [] ts = returns ts
  applies ((i, m) ∷ ms) ts = applier i m ts >>= applies ms

  -- nCommitted
  unfoldable pub count_committed : ℤ → List (Rfsrv V) → ℕ → Option V → Exec (ℕ × Option V)
  count_committed index [] count cmd = returns (count, cmd)
  count_committed index (rs ∷ rest) count cmd =
      let counted = λ (c : V). count_committed index rest (count + 1) (some c) in
      let skipped = count_committed index rest count cmd in
      if rs.apply_err then fatal else elim (logs_at index rs) [
        | none ↦ skipped
        | some cmd1 ↦ elim cmd [
          | none ↦ if ltb 0 count then fatal else counted cmd1
          | some c ↦ if ltb 0 count && not (c == cmd1) then fatal else counted cmd1
        ]
      ]

  unfoldable pub n_committed : ℤ → Test V → Exec (ℕ × Option V)
  unfolding count_committed
  n_committed index ts = count_committed index ts.srvs 0 none

  unfoldable pub check_no_agreement : ℤ → Test V → Exec (Unit {0})
  unfolding n_committed
  check_no_agreement index ts =
      n_committed index ts >>= λ (r : ℕ × Option V). if ltb 0 r.0 then fatal else returns tt

-- What the tester sees of a peer: ts.g.IsConnected(i) and the two results of GetState.
pub record Peer : Type 0 where
  pub connected : Bool
  pub term : ℤ
  pub leader : Bool

-- "leaders[term] = append(leaders[term], i)" for each connected leader
unfoldable pub collect_leaders : List Peer → ℕ → Map ℤ (List ℕ) → Map ℤ (List ℕ)
collect_leaders [] i leaders = leaders
collect_leaders (p ∷ ps) i leaders = collect_leaders ps (suc i) (
    if p.connected && p.leader
    then insert p.term (or_else (lookup p.term leaders) [] ++ i ∷ []) leaders
    else leaders)

-- "range leaders": more than one leader in a term is fatal, else the last term is found
unfoldable pub last_term : Map ℤ (List ℕ) → ℤ → Exec ℤ
last_term [] last = returns last
last_term ((term, ids) ∷ rest) last =
    let next = last_term rest (if ltb_ℤ last term then term else last) in
    if ltb 1 (length ids) then fatal else next

-- One iteration of checkOneLeader: `none` when it has found no leader.
unfoldable pub check_one_leader_once : List Peer → Exec (Option ℕ)
unfolding collect_leaders last_term
check_one_leader_once peers =
    let leaders = collect_leaders peers 0 [] in
    last_term leaders (negsuc 0) >>= λ (last : ℤ).
    if not (length leaders == 0)
    then elim (or_else (lookup last leaders) []) [ [] ↦ panics | i ∷ _ ↦ returns (some i) ]
    else returns none

-- checkOneLeader, over what the peers look like at each of its ten iterations
unfoldable pub check_one_leader : List (List Peer) → Exec ℕ
unfolding check_one_leader_once
check_one_leader [] = fatal
check_one_leader (peers ∷ later) =
    let again = check_one_leader later in
    check_one_leader_once peers >>= λ (found : Option ℕ). elim found [
      | none ↦ again
      | some i ↦ returns i
    ]

-- The loop of checkTerms; -1 is no term yet.
unfoldable pub check_terms_from : List Peer → ℤ → Exec ℤ
check_terms_from [] term = returns term
check_terms_from (p ∷ ps) term =
    let first = check_terms_from ps p.term in
    let same = check_terms_from ps term in
    if not p.connected
    then same
    else if beq_ℤ term (negsuc 0)
    then first
    else if not (beq_ℤ term p.term)
    then fatal
    else same

unfoldable pub check_terms : List Peer → Exec ℤ
unfolding check_terms_from
check_terms peers = check_terms_from peers (negsuc 0)

unfoldable pub check_no_leader : List Peer → Exec (Unit {0})
check_no_leader [] = returns tt
check_no_leader (p ∷ ps) = if p.connected && p.leader then fatal else check_no_leader ps
