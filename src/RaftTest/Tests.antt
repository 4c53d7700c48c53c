-- ===== src/RaftTest/Tests.antt =====
-- The checks of the Raft tests on small runs, and the theorems at them. Commands are numbers.
use mit.Base.{
  ◌<◌, ℕ, zero, suc, ◌≤◌, Bool, true, false, Option, none, some, List, [], ◌∷◌, nat_eq, ◌≡◌, refl,
  ap, sym, arith, ◌↔◌, All, get_elem?, or_else,
}
use mit.Base.Int.{ℤ, int_eq, pos, negsuc, ◌+ℤ◌}
use mit.Base.Maps.{Map, lookup, insert, has}
use mit.Base.Exec.{returns, fatal, panics}
use mathlib.Core.List.{Memᴰ}
use mit.RaftTest.{
  ApplyMsg, Rfsrv, Test, Peer, applier, applies, n_committed, check_terms, check_no_leader,
  check_one_leader,
}
use mit.RaftTest.Agreement.{LogsAgree, applies-LogsAgree}
use mit.RaftTest.Holes.{NoHoles, applies-NoHoles}
use mit.RaftTest.Committed.{IsCount, AllAre, n_committed_returns, holders}
use mit.RaftTest.Leaders.{check_no_leader_iff}
use mit.RaftTest.OneLeader.{IsOneLeader, check_one_leader-IsOneLeader}
use mit.RaftTest.Waiting.{moved_on, wait}
use mit.RaftTest.One.{Round, one, one-IsCount}
use mit.RaftTest.Snapshots.{
  SnapCodec, snapshot_due, ingest_snap, applier_snap, xlog_through, ingest_snap-snapshot,
  applier_snap_order,
}

abbrev blank : Rfsrv ℕ
blank = record { raft = true; apply_err = false; last_applied = pos 0; logs = []; snapshots = [] }

abbrev fresh : Test ℕ
fresh = record { srvs = blank ∷ blank ∷ []; max_index = pos 0 }

abbrev message : ℕ → ℕ → ApplyMsg ℕ
message index v = record {
  command_valid = true;
  command = v;
  command_index = pos index;
  snapshot_valid = false;
  snapshot = none;
  snapshot_term = pos 0;
  snapshot_index = pos 0;
}

abbrev holding : Map ℤ ℕ → Rfsrv ℕ
holding logs = record blank { logs = logs }

-- Server 0 has two entries, server 1 the first of them.
abbrev behind : Test ℕ
behind = record {
  srvs = holding ((pos 1, 40) ∷ (pos 2, 50) ∷ []) ∷ holding ((pos 1, 40) ∷ []) ∷ [];
  max_index = pos 2;
}

run : Unit {0}
unfolding lookup insert applier applies n_committed check_terms check_no_leader check_one_leader
    snapshot_due ingest_snap applier_snap holders ◌+ℤ◌
run = tt

applies_agree :
    applies ((0, message 1 40) ∷ (1, message 1 40) ∷ (0, message 2 50) ∷ []) fresh ≡ returns behind
unfolding run
applies_agree = refl

applies_hole : applies ((0, message 1 40) ∷ (0, message 3 50) ∷ []) fresh ≡ fatal
unfolding run
applies_hole = refl

applies_out_of_range : applies ((2, message 1 40) ∷ []) fresh ≡ panics
unfolding run
applies_out_of_range = refl

fresh_empty : (a : ℕ) (ra : Rfsrv ℕ) → get_elem? fresh.srvs a ≡ some ra → ra.logs ≡ []
fresh_empty zero ra h = ap (λ (o : Option (Rfsrv ℕ)). (or_else o blank).logs) (sym h)
fresh_empty (suc zero) ra h = ap (λ (o : Option (Rfsrv ℕ)). (or_else o blank).logs) (sym h)
fresh_empty (suc (suc a)) ra h = cc h

fresh-LogsAgree : LogsAgree fresh
unfolding lookup
fresh-LogsAgree = record {
  same = λ a b ra rb index va vb at_a at_b there_a there_b.
      absurd (cc (fresh_empty a ra at_a, there_a));
}

fresh-NoHoles : NoHoles fresh
unfolding lookup
fresh-NoHoles = record {
  dense = λ a ra index at past there. absurd (cc (there, ap (has index) (fresh_empty a ra at)));
}

applies-LogsAgree_example : LogsAgree behind
applies-LogsAgree_example =
    applies-LogsAgree ((0, message 1 40) ∷ (1, message 1 40) ∷ (0, message 2 50) ∷ []) fresh behind
      applies_agree fresh-LogsAgree

applies-NoHoles_example : NoHoles behind
applies-NoHoles_example =
    applies-NoHoles ((0, message 1 40) ∷ (1, message 1 40) ∷ (0, message 2 50) ∷ []) fresh behind
      applies_agree fresh-NoHoles

n_committed-behind : n_committed (pos 1) behind ≡ returns (2, some 40)
unfolding run
n_committed-behind = refl

behind-AllAre : AllAre (pos 2) 50 behind.srvs
unfolding lookup
behind-AllAre = ((λ v h. ground arith), ((λ v h. cc h), tt))

n_committed_returns_example :
    (n : ℕ) × (r : Option ℕ) × (n_committed (pos 2) behind ≡ returns (n, r))
    × IsCount (pos 2) behind.srvs n r
n_committed_returns_example = n_committed_returns (pos 2) behind 50 (refl, (refl, tt)) behind-AllAre

abbrev peer : Bool → ℕ → Bool → Peer
peer connected term leader = record { connected = connected; term = pos term; leader = leader }

-- The old leader of term 1 is cut off; peer 2 leads term 2.
abbrev elected : List Peer
elected = peer false 1 true ∷ peer true 2 false ∷ peer true 2 true ∷ []

check_no_leader_iff_example :
    (check_no_leader elected ≡ returns tt)
    ↔ All (λ (p : Peer). p.connected ≡ true → p.leader ≡ false) elected
check_no_leader_iff_example = check_no_leader_iff elected

check_no_leader-elected : check_no_leader elected ≡ fatal
unfolding run
check_no_leader-elected = refl

check_one_leader-IsOneLeader_example :
    (peers : List Peer) × Memᴰ peers ((peer true 1 false ∷ []) ∷ elected ∷ []) × IsOneLeader peers 2
unfolding run
check_one_leader-IsOneLeader_example =
    check_one_leader-IsOneLeader ((peer true 1 false ∷ []) ∷ elected ∷ []) 2 refl

check_one_leader-two : check_one_leader ((peer true 2 true ∷ peer true 2 true ∷ []) ∷ []) ≡ fatal
unfolding run
check_one_leader-two = refl

-- An encoding of an index and a log of numbers as a list of numbers.
abbrev flat : SnapCodec ℕ
flat = record { encode = encode_flat; decode = decode_flat; decode-encode = flat_trip }
  where
    encode_flat : ℤ → List ℕ → List ℕ
    encode_flat (pos n) xs = 0 ∷ n ∷ xs
    encode_flat (negsuc n) xs = 1 ∷ n ∷ xs

    decode_flat : List ℕ → Option (ℤ × List ℕ)
    decode_flat (zero ∷ n ∷ xs) = some (pos n, xs)
    decode_flat (suc zero ∷ n ∷ xs) = some (negsuc n, xs)
    decode_flat _ = none

    flat_trip : (index : ℤ) (xs : List ℕ) → decode_flat (encode_flat index xs) ≡ some (index, xs)
    flat_trip (pos n) xs = refl
    flat_trip (negsuc n) xs = refl

ingest_snap-snapshot_example :
    (rs' : Rfsrv ℕ) × (ingest_snap flat 0
        (some (0 ∷ 2 ∷ xlog_through flat 0 (pos 2) ((pos 1, 40) ∷ (pos 2, 50) ∷ [])))
        (pos 2)
        blank
      ≡ returns (none, rs'))
    × (rs'.last_applied ≡ pos 2)
    × ((j : ℕ)
        → j ≤ 2
        → lookup (pos j) rs'.logs
          ≡ some (or_else (lookup (pos j) ((pos 1, 40) ∷ (pos 2, 50) ∷ [])) 0))
ingest_snap-snapshot_example =
    ingest_snap-snapshot flat 0 2 (holding ((pos 1, 40) ∷ (pos 2, 50) ∷ [])) blank

applier_snap_order_example : pos 1 ≡ pos 0 +ℤ pos 1
unfolding run
applier_snap_order_example =
    applier_snap_order flat 0 0 (message 1 40) fresh
      (record {
        srvs = record blank { last_applied = pos 1; logs = (pos 1, 40) ∷ [] } ∷ blank ∷ [];
        max_index = pos 1;
      })
      blank refl refl refl refl

wait_moved_on :
    wait (pos 2) 2 (pos 1) (record { ts = behind; terms = pos 1 ∷ pos 2 ∷ [] } ∷ []) behind
    ≡ returns moved_on
unfolding run wait
wait_moved_on = refl

-- Nobody leads at first; then the second server takes the command, and the second poll sees it.
abbrev two_rounds : List (Round ℕ)
two_rounds =
    record { finished = false; starts = none ∷ none ∷ []; looks = [] }
    ∷ record { finished = false; starts = none ∷ some (pos 1) ∷ []; looks = fresh ∷ behind ∷ [] }
    ∷ []

one-IsCount_example :
    (round : Round ℕ) × (ts : Test ℕ) × (count : ℕ) × Memᴰ round two_rounds
    × Memᴰ ts round.looks
    × (0 < count)
    × (2 ≤ count)
    × IsCount (pos 1) ts.srvs count (some 40)
unfolding run one
one-IsCount_example = one-IsCount 40 2 false two_rounds false (pos 1) refl (λ e. cc e)
