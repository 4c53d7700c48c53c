-- ===== src/Shardkv/Tests.antt =====
-- A controller that stores the configuration, and the theorems at it.
use mit.Base.{
  none, some, ◌+◌, ◌*◌, ap, sym, ◌∙◌, if◌then◌else◌, Bool, String, ℕ, ◌≤◌, true, false, List, [],
  ◌∷◌, nat_eq, contains, count, Distinct, All, ◌≡◌, refl, arith,
}
use mit.Base.Int.{ℤ, pos, int_eq, beq_ℤ_iff}
use mit.Base.Maps.{lookup, insert}
use mit.Base.Exec.{returns, fatal}
use mit.ShardCfg
use mit.ShardCfg.{Tgid, ShardConfig}
use mit.Shardkv.{
  Ctrler, IsLawful, Test, join_groups, leave_groups, new_gids, check_shutdown_sharding,
  check_recovered, joining, Env, nsrv,
}
use mit.Shardkv.Tester.{IsFair, AreUndrawn, AreRunning}
use mit.Config.{Config}
use mit.Config.Starts.{IsRunning}
use mit.Labrpc.{make_network}
use mit.Groups.Samples.{ones, count_ones, ones_trip, three}
use mit.Shardkv.Steps.{entries, tgids}
use mit.Shardkv.Rounds.{IsAt, AreNew, join_leave_groups, join_groups_crowded}

abbrev storing : Ctrler ShardConfig
storing = record { init_config = λ c s. c; change_config_to = λ c s. c; query = λ s. s }

storing-IsLawful : IsLawful storing
storing-IsLawful = record { query-init = λ c s. refl; query-change = λ c s num. refl }

-- The table starts with the controller's group, which is in no configuration.
abbrev config : Config
config = record {
  net = make_network;
  grps = (pos 0, three) ∷ [];
  clerks = some [];
  persisters = [];
  killed = [];
  failed = false;
  start = 0;
  t0 = 0;
  rpcs0 = 0;
  ops = 0;
}

-- A name is four numbers in unary; each server runs one service.
abbrev bit : Bool → ℕ
bit true = 1
bit false = 0

abbrev env : Env
env = record {
  mks = λ ends gid i p. some p ∷ [];
  draw = λ b g i j. ones (bit b) (ones g (ones i (ones j "")));
  server_obj = λ g i. g * 3 + i;
}

ones-inj : (n m : ℕ) (s t : String) → ones n s ≡ ones m t → (n ≡ m) × (s ≡ t)
ones-inj n m s t e =
    let both : some (n, s) ≡ some (m, t) = sym (ones_trip n s) ∙ ap count_ones e ∙ ones_trip m t in
    (cc both, cc both)

bit-inj : (b c : Bool) → bit b ≡ bit c → b ≡ c
bit-inj true true e = refl
bit-inj true false e = absurd (omega arith)
bit-inj false true e = absurd (omega arith)
bit-inj false false e = refl

env-IsFair : IsFair env
env-IsFair = record {
  differ = λ b c g h i k j l e.
      let (x, e1) =
        ones-inj (bit b) (bit c) (ones g (ones i (ones j ""))) (ones h (ones k (ones l ""))) e in
      let (y, e2) = ones-inj g h (ones i (ones j "")) (ones k (ones l "")) e1 in
      let (z, e3) = ones-inj i k (ones j "") (ones l "") e2 in
      let (w, e4) = ones-inj j l "" "" e3 in (bit-inj b c x, y, z, w);
  starts = λ ends g i p. (refl, tt);
}

config-AreUndrawn : (gids : List ℕ) → AreUndrawn env gids config
unfolding make_network lookup
config-AreUndrawn gids b g i j m = refl

-- One group has all shards.
abbrev alone : ShardConfig
alone = record { num = 1; shards = ShardCfg.make_shard_config.shards; groups = [] }

new_gids_runs :
    new_gids 3 (record { sck = alone; ngid = 2; cfg = config })
    ≡ (2 ∷ 3 ∷ 4 ∷ [], record { sck = alone; ngid = 5; cfg = config })
unfolding new_gids
new_gids_runs = refl

abbrev one : List Tgid
one =
    pos 1
    ∷ pos 1
    ∷ pos 1
    ∷ pos 1
    ∷ pos 1
    ∷ pos 1
    ∷ pos 1
    ∷ pos 1
    ∷ pos 1
    ∷ pos 1
    ∷ pos 1
    ∷ pos 1
    ∷ []

abbrev first : ShardConfig
first = record { num = 1; shards = one; groups = entries (1 ∷ []) }

abbrev started : Test ShardConfig
started = record { sck = first; ngid = 4; cfg = config }

started-IsAt : IsAt storing (1 ∷ []) started
unfolding contains ShardCfg.check_config lookup insert
started-IsAt = record {
  fit = record { size = refl; distinct = (refl, tt); groups = λ g. refl; passes = refl };
  distinct = (refl, tt);
}

news-AreNew : AreNew (2 ∷ 3 ∷ []) (1 ∷ [])
unfolding contains
news-AreNew = (refl, (refl, tt))

join_leave_groups_example :
    (ts1 : Test ShardConfig) × (ts2 : Test ShardConfig) × (join_groups storing env
        (2 ∷ 3 ∷ [])
        started
      ≡ returns (true, ts1))
    × IsAt storing (3 ∷ 2 ∷ 1 ∷ []) ts1
    × AreRunning env (2 ∷ 3 ∷ []) ts1.cfg
    × ((g : ℤ)
        → contains g (tgids (2 ∷ 3 ∷ [])) ≡ false
        → lookup g ts1.cfg.grps ≡ lookup g config.grps)
    × (leave_groups storing env (2 ∷ 3 ∷ []) ts1 ≡ returns (true, ts2))
    × IsAt storing (1 ∷ []) ts2
    × ((g : ℤ)
        → lookup g ts2.cfg.grps
          ≡ (if contains g (tgids (2 ∷ 3 ∷ [])) then none else lookup g config.grps))
join_leave_groups_example =
    join_leave_groups storing storing-IsLawful env env-IsFair (2 ∷ 3 ∷ []) (1 ∷ []) started
      started-IsAt news-AreNew (omega arith, (omega arith, tt)) (omega arith)
      (config-AreUndrawn (2 ∷ 3 ∷ []))

-- Twelve groups with a shard each.
abbrev dozen : List ℕ
dozen = 1 ∷ 2 ∷ 3 ∷ 4 ∷ 5 ∷ 6 ∷ 7 ∷ 8 ∷ 9 ∷ 10 ∷ 11 ∷ 12 ∷ []

abbrev full : Test ShardConfig
full = record {
  sck = record { num = 9; shards = tgids dozen; groups = entries dozen };
  ngid = 13;
  cfg = config;
}

full-IsAt : IsAt storing dozen full
unfolding contains ShardCfg.check_config lookup count insert
full-IsAt = record {
  fit = record {
    size = refl;
    distinct = (
      refl,
      (refl, (refl, (refl, (refl, (refl, (refl, (refl, (refl, (refl, (refl, (refl, tt))))))))))),
    );
    groups = λ g. refl;
    passes = refl;
  };
  distinct = (
    refl,
    (refl, (refl, (refl, (refl, (refl, (refl, (refl, (refl, (refl, (refl, (refl, tt))))))))))),
  );
}

dozen-assigned : All (λ g. contains g (tgids dozen) ≡ true) (tgids dozen)
unfolding contains
dozen-assigned = (
  refl,
  (refl, (refl, (refl, (refl, (refl, (refl, (refl, (refl, (refl, (refl, (refl, tt))))))))))),
)

count_off : (g : Tgid) (gs : List Tgid) → contains g gs ≡ false → count g gs ≡ 0
unfolding contains count
count_off g [] h = refl
count_off g (x ∷ gs) h = ground (arith, count_off g gs)

count-Distinct : (g : Tgid) (gs : List Tgid) → Distinct gs → count g gs ≤ 1
unfolding contains count
count-Distinct g [] d = omega arith
count-Distinct g (x ∷ gs) d =
    ground (arith, count-Distinct g gs d.1, count_off x gs d.0, beq_ℤ_iff g x)

dozen-Distinct : Distinct (tgids dozen)
unfolding contains
dozen-Distinct = (
  refl,
  (refl, (refl, (refl, (refl, (refl, (refl, (refl, (refl, (refl, (refl, (refl, tt))))))))))),
)

absent_13 : contains 13 dozen ≡ false
unfolding contains
absent_13 = refl

join_groups_crowded_example :
    (ts' : Test ShardConfig) × (join_groups storing env (13 ∷ []) full ≡ returns (false, ts'))
    × IsAt storing (13 ∷ dozen) ts'
    × IsRunning nsrv (env.draw true 13) (pos 13) ts'.cfg
join_groups_crowded_example =
    join_groups_crowded storing storing-IsLawful env env-IsFair 13 [] dozen full full-IsAt absent_13
      dozen-assigned (λ g. count-Distinct g (tgids dozen) dozen-Distinct)
      (config-AreUndrawn (13 ∷ []))

-- Two gets of three return before the timeout; then a wrong one; then all of them.
shutdown_sharded : check_shutdown_sharding 3 ("" ∷ "" ∷ []) ≡ returns tt
unfolding check_shutdown_sharding
shutdown_sharded = refl

shutdown_wrong : check_shutdown_sharding 3 ("" ∷ "Get: expected" ∷ []) ≡ fatal
unfolding check_shutdown_sharding
shutdown_wrong = refl

shutdown_unsharded : check_shutdown_sharding 2 ("" ∷ "" ∷ []) ≡ fatal
unfolding check_shutdown_sharding
shutdown_unsharded = refl

recovered_join : check_recovered 0 first 1 joining ≡ returns true
unfolding check_recovered ShardCfg.is_member
recovered_join = refl

recovered_stale : check_recovered 1 first 1 joining ≡ fatal
unfolding check_recovered ShardCfg.is_member
recovered_stale = refl
