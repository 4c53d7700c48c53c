-- ===== src/Shardkv.antt =====
-- src/shardkv1/test.go: how a test of the sharded service adds and removes groups through the shard
-- controller, and what it checks of the configuration. The controller is the lab's code, of which the
-- repository has the interface only: its operations are an argument, and so are its laws where a
-- theorem needs them. A group number that a test draws is not negative.
pub mod Loads
pub mod Steps
pub mod Join
pub mod Leave
pub mod Crowded
pub mod Tester
pub mod Rounds
mod Tests
use mit.Base.{
  ℕ, zero, suc, ◌+◌, ◌%◌, ◌^◌, ◌≡◌, String, Bool, true, false, not, ◌&&◌, ◌||◌, List, [], ◌∷◌,
  if◌then◌else◌, leb, ◌==◌, string_eq, nat_eq, get_elem?, Option, none, some, length,
}
use mit.Base.Int.{pos}
use mit.Base.Exec.{Exec, returns, fatal, panics, ◌>>=◌, ◌>>◌}
use mit.Groups.{ServerGrp}
use mit.Groups.Servers.{StartFun}
use mit.Labrpc.{ServerRef}
use mit.Config.{Config, group, make_group_start, exit_group}
use mit.ShardCfg
use mit.ShardCfg.{ShardConfig, make_shard_config, join_balance, leave_balance, is_member}

-- shardctrler.ShardCtrler, over what it and its server keep.
pub record Ctrler (S : Type 0) : Type 0 where
  pub init_config : ShardConfig → S → S
  pub change_config_to : ShardConfig → S → S
  pub query : S → ShardConfig

-- Query gives the configuration of the last InitConfig or ChangeConfigTo, where the latter is to the
-- next number.
pub record IsLawful {S : Type 0} (ctrler : Ctrler S) : Type 0 where
  pub query-init : (c : ShardConfig) (s : S) → ctrler.query (ctrler.init_config c s) ≡ c
  pub query-change :
      (c : ShardConfig) (s : S)
      → c.num ≡ ((ctrler.query s).num + 1) % 2 ^ 64
      → ctrler.query (ctrler.change_config_to c s) ≡ c

-- NSRV, and shardcfg.Gid1
abbrev pub nsrv : ℕ
nsrv = 3

abbrev pub gid1 : ℕ
gid1 = 1

-- The parts of Test that the steps below change.
pub record Test (S : Type 0) : Type 0 where
  pub sck : S
  pub ngid : ℕ
  pub cfg : Config

-- What StartServerShardGrp, which is the lab's, starts; the random names for the ends of server `i`
-- of group `g`, which are `draw false g i` when the group is made and `draw true g i` when it is
-- started; and its labrpc.Server.
pub record Env : Type 0 where
  pub mks : StartFun
  pub draw : Bool → ℕ → ℕ → ℕ → String
  pub server_obj : ℕ → ℕ → ServerRef

-- The goroutine of checkShutdownSharding: what it sends, an empty text for the value that is due.
unfoldable pub report : String → String → String
report got wanted = if got == wanted then "" else "Get: expected"

-- The loop over the texts that are sent before the timeout.
unfoldable pub count_done : List String → ℕ → Exec ℕ
count_done [] ndone = returns ndone
count_done (err ∷ errs) ndone =
    let more = count_done errs (ndone + 1) in if err == "" then more else fatal

-- checkShutdownSharding, for `n` keys.
unfoldable pub check_shutdown_sharding : ℕ → List String → Exec (Unit {0})
unfolding count_done
check_shutdown_sharding n errs =
    count_done errs 0 >>= λ (ndone : ℕ). if leb n ndone then fatal else returns tt

-- `state` of partitionCtrler
pub data Phase : Type 0 where
  neither joining leaving : Phase

abbrev pub is_joining : Phase → Bool
is_joining joining = true
is_joining _ = false

abbrev pub is_leaving : Phase → Bool
is_leaving leaving = true
is_leaving _ = false

-- What partitionCtrler demands of the new controller's configuration; whether the group is to leave.
unfoldable pub check_recovered : ℕ → ShardConfig → ℕ → Phase → Exec Bool
check_recovered num cfg ngid state =
    let present = is_member (pos ngid) cfg in
    if leb cfg.num num
    then fatal
    else if is_joining state && not present || is_leaving state && present
    then fatal
    else returns (is_joining state && present)

module _ {S : Type 0} where
  unfoldable pub new_gid : Test S → ℕ × Test S
  new_gid ts = (ts.ngid, record ts { ngid = ts.ngid + 1 })

  -- groups
  unfoldable pub new_gids : ℕ → Test S → List ℕ × Test S
  unfolding new_gid
  new_gids zero ts = ([], ts)
  new_gids (suc n) ts =
      let (gid, ts1) = new_gid ts in let (gids, ts2) = new_gids n ts1 in (gid ∷ gids, ts2)

  -- ts.Config.MakeGroupStart(gid, NSRV, ts.StartServerShardGrp)
  unfoldable pub start_group : Env → ℕ → Test S → Exec (Test S)
  start_group env gid ts =
      make_group_start (pos gid) nsrv env.mks (env.draw false gid) (env.draw true gid)
        (env.server_obj gid) ts.cfg
      >>= λ (cfg : Config). returns (record ts { cfg = cfg })

  module _ (ctrler : Ctrler S) where
    unfoldable pub check_member : ℕ → S → Bool
    check_member gid sck = is_member (pos gid) (ctrler.query sck)

    unfoldable pub join : ℕ → List String → S → Exec S
    join gid srvs sck =
        join_balance ((pos gid, srvs) ∷ []) (ShardCfg.copy (ctrler.query sck))
        >>= λ (r : ShardConfig × Bool).
            if not r.1 then fatal else returns (ctrler.change_config_to r.0 sck)

    unfoldable pub leave : ℕ → S → Exec S
    leave gid sck =
        leave_balance (pos gid ∷ []) (ShardCfg.copy (ctrler.query sck))
        >>= λ (r : ShardConfig × Bool).
            if not r.1 then fatal else returns (ctrler.change_config_to r.0 sck)

    module _ (env : Env) where
      unfoldable pub setup_kv_service : Test S → Exec (ℕ × Test S)
      unfolding start_group
      setup_kv_service ts = start_group env gid1 ts >>= λ (ts1 : Test S).
          group (pos gid1) ts1.cfg >>= λ (sg : ServerGrp).
          join_balance ((pos gid1, sg.servernames) ∷ []) make_shard_config
          >>= λ (r : ShardConfig × Bool).
              returns (gid1, record ts1 { sck = ctrler.init_config r.0 ts1.sck })

      unfoldable pub join_groups : List ℕ → Test S → Exec (Bool × Test S)
      unfolding join check_member start_group
      join_groups [] ts = returns (true, ts)
      join_groups (gid ∷ gids) ts = start_group env gid ts >>= λ (ts1 : Test S).
          group (pos gid) ts1.cfg >>= λ (sg : ServerGrp).
          join gid sg.servernames ts1.sck >>= λ (sck : S).
          let ts2 = record ts1 { sck = sck } in
          let rest = join_groups gids ts2 in
          if not (check_member gid sck) then returns (false, ts2) else rest

      unfoldable pub leave_groups : List ℕ → Test S → Exec (Bool × Test S)
      unfolding leave check_member
      leave_groups [] ts = returns (true, ts)
      leave_groups (gid ∷ gids) ts = leave gid ts.sck >>= λ (sck : S).
          let ts1 = record ts { sck = sck } in
          let rest = exit_group (pos gid) ts1.cfg >>= λ (cfg : Config).
          leave_groups gids (record ts1 { cfg = cfg }) in
          if check_member gid sck then returns (false, ts1) else rest
