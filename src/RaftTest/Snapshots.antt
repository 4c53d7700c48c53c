-- ===== src/RaftTest/Snapshots.antt =====
-- src/raft1/server.go: applierSnap and ingestSnap. `nil` is Go's nil as a command. labgob's encoding
-- of the index and the log is a parameter with its round trip.
use mit.Base.{
  ℕ, zero, suc, ◌+◌, ◌%◌, ◌≤◌, ◌<◌, Bool, true, false, not, ◌&&◌, Option, none, some, List, [], ◌∷◌,
  ◌++◌, if◌then◌else◌, or_else, ◌==◌, Eq, nat_eq, get_elem?, set, ◌≡◌, refl, inl, inr, arith,
  Bool-cases,
}
use mit.Base.Int.{ℤ, pos, negsuc, int_eq, beq_ℤ, beq_ℤ_iff, ◌+ℤ◌}
use mit.Base.Maps.{Map, lookup, insert, lookup-insert}
use mit.Base.Exec.{Exec, returns, fatal, panics, ◌>>=◌}
use mit.RaftTest.{
  ApplyMsg, Rfsrv, Test, ApplyError, out_of_order, bad_snapshot_index, snap_shot_interval,
  check_logs, order_error, stop_on,
}

pub record SnapCodec (V : Type 0) : Type 0 where
  pub encode : ℤ → List V → List ℕ
  pub decode : List ℕ → Option (ℤ × List V)
  pub decode-encode : (index : ℤ) (xlog : List V) → decode (encode index xlog) ≡ some (index, xlog)

-- `(m.CommandIndex+1)%snap_shot_interval == 0`
unfoldable pub snapshot_due : ℤ → Bool
snapshot_due (pos n) = (n + 1) % snap_shot_interval == 0
snapshot_due (negsuc n) = n % snap_shot_interval == 0

module _ {V : Type 0} ⦃e : Eq V⦄ (codec : SnapCodec V) (nil : V) where
  -- rs.logs[j] for `count` numbers from `j`
  unfoldable pub log_range : ℕ → ℕ → Map ℤ V → List V
  log_range j zero logs = []
  log_range j (suc n) logs = or_else (lookup (pos j) logs) nil ∷ log_range (suc j) n logs

  -- the entries from 0 through the index
  unfoldable pub xlog_through : ℤ → Map ℤ V → List V
  unfolding log_range
  xlog_through (pos n) logs = log_range 0 (n + 1) logs
  xlog_through (negsuc n) logs = []

  -- "rs.logs[j] = xlog[j]"
  unfoldable pub load_logs : ℕ → List V → Map ℤ V → Map ℤ V
  load_logs j [] logs = logs
  load_logs j (v ∷ xlog) logs = load_logs (suc j) xlog (insert (pos j) v logs)

  unfoldable pub ingest_snap :
      Option (List ℕ) → ℤ → Rfsrv V → Exec (Option (ApplyError V) × Rfsrv V)
  unfolding load_logs
  ingest_snap none index rs = fatal
  ingest_snap (some snapshot) index rs = elim (codec.decode snapshot) [
    | none ↦ fatal
    | some (last_included, xlog) ↦
        if not (beq_ℤ index (negsuc 0)) && not (beq_ℤ index last_included)
        then returns (some bad_snapshot_index, rs)
        else returns (none, record rs { logs = load_logs 0 xlog []; last_applied = last_included })
  ]

  abbrev pub put_srv : ℕ → Rfsrv V → Test V → Test V
  put_srv i rs ts = record ts { srvs = set ts.srvs i rs }

  -- Behind the checks of a command: lastApplied, and a snapshot every ten entries.
  unfoldable pub after_command : ℤ → Rfsrv V → Rfsrv V
  unfolding snapshot_due xlog_through
  after_command index rs =
      let moved = record rs { last_applied = index } in
      if snapshot_due index
      then record moved {
        snapshots =
            moved.snapshots ++ (index, codec.encode index (xlog_through index moved.logs)) ∷ [];
      }
      else moved

  abbrev pub finish_command : ℕ → ApplyMsg V → Option (ApplyError V) → Test V → Exec (Test V)
  finish_command i m err ts = elim (get_elem? ts.srvs i) [
    | none ↦ panics
    | some rs ↦ stop_on err (put_srv i (after_command m.command_index rs) ts)
  ]

  -- One message in the loop of applierSnap.
  unfoldable pub applier_snap : ℕ → ApplyMsg V → Test V → Exec (Test V)
  unfolding ingest_snap after_command check_logs
  applier_snap i m ts = elim (get_elem? ts.srvs i) [
    | none ↦ panics
    | some rs ↦
        if m.snapshot_valid
        then (ingest_snap m.snapshot m.snapshot_index rs
            >>= λ (r : Option (ApplyError V) × Rfsrv V). stop_on r.0 (put_srv i r.1 ts))
        else if m.command_valid
        then (if not (beq_ℤ m.command_index (rs.last_applied +ℤ pos 1))
            then finish_command i m (some (out_of_order m.command_index)) ts
            else (check_logs i m ts >>= λ (r : Option (ApplyError V) × Bool × Test V).
                finish_command i m (order_error m.command_index r.1 r.0) r.2))
        else returns ts
  ]

  load_logs-below :
      (xlog : List V) (s j : ℕ) (logs : Map ℤ V)
      → j < s
      → lookup (pos j) (load_logs s xlog logs) ≡ lookup (pos j) logs
  unfolding load_logs
  load_logs-below [] s j logs h = refl
  load_logs-below (v ∷ xlog) s j logs h = ground (
    arith,
    load_logs-below xlog (suc s) j (insert (pos s) v logs),
    lookup-insert (pos s) (pos j) v logs,
  )

  load_logs-at :
      (n s k : ℕ) (old logs : Map ℤ V)
      → k < n
      → lookup (pos (s + k)) (load_logs s (log_range s n old) logs)
        ≡ some (or_else (lookup (pos (s + k)) old) nil)
  unfolding load_logs log_range
  load_logs-at zero s k old logs h = absurd (omega arith)
  load_logs-at (suc n) s zero old logs h =
      let eq : s + 0 ≡ s = omega arith in
      rw eq (
        ground (
          arith,
          load_logs-below (log_range (suc s) n old) (suc s) s
              (insert (pos s) (or_else (lookup (pos s) old) nil) logs),
          lookup-insert (pos s) (pos s) (or_else (lookup (pos s) old) nil) logs,
        ))
  load_logs-at (suc n) s (suc k) old logs h =
      let eq : s + suc k ≡ suc s + k = omega arith in
      rw eq (
        load_logs-at n (suc s) k old (insert (pos s) (or_else (lookup (pos s) old) nil) logs)
          (omega arith))

  -- A server that ingests the snapshot which another has made at index `n` has that server's
  -- entries 0 through `n` and continues behind it.
  pub ingest_snap-snapshot :
      (n : ℕ) (maker rs : Rfsrv V)
      → (rs' : Rfsrv V) × (ingest_snap
            (some (codec.encode (pos n) (xlog_through (pos n) maker.logs)))
            (pos n)
            rs
          ≡ returns (none, rs'))
        × (rs'.last_applied ≡ pos n)
        × ((j : ℕ)
            → j ≤ n
            → lookup (pos j) rs'.logs ≡ some (or_else (lookup (pos j) maker.logs) nil))
  unfolding ingest_snap xlog_through
  ingest_snap-snapshot n maker rs = (
    record rs { logs = load_logs 0 (log_range 0 (n + 1) maker.logs) []; last_applied = pos n },
    ground (
      arith,
      codec.decode-encode (pos n) (log_range 0 (n + 1) maker.logs),
      beq_ℤ_iff (pos n) (pos n),
    ),
    refl,
    λ j h.
        let eq : 0 + j ≡ j = omega arith in
        rw eq at (load_logs-at (n + 1) 0 j maker.logs [] (omega arith)),
  )

  -- applierSnap goes on only from one index to the next.
  pub applier_snap_order :
      (i : ℕ) (m : ApplyMsg V) (ts ts' : Test V) (rs : Rfsrv V)
      → m.snapshot_valid ≡ false
      → m.command_valid ≡ true
      → get_elem? ts.srvs i ≡ some rs
      → applier_snap i m ts ≡ returns ts'
      → m.command_index ≡ rs.last_applied +ℤ pos 1
  unfolding applier_snap
  applier_snap_order i m ts ts' rs snap cmd at h =
      elim (Bool-cases (beq_ℤ m.command_index (rs.last_applied +ℤ pos 1))) [
        | inl same ↦ (beq_ℤ_iff m.command_index (rs.last_applied +ℤ pos 1)).0 same
        | inr other ↦ absurd (ground arith)
      ]
