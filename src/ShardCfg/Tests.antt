-- ===== src/ShardCfg/Tests.antt =====
-- Configurations at work, and the theorems at them.
use mit.Base.{
  ◌≡◌, refl, true, false, List, [], ◌∷◌, arith, none, some, ◌↔◌, if◌then◌else◌, contains, count,
  Distinct, String, replicate, string_eq, nat_eq,
}
use mit.Base.Int.{pos, ◌+ℤ◌, int_eq}
use mit.Base.Maps.{Map, keys, has, lookup, insert, erase}
use mit.Base.Exec.{returns, fatal}
use mit.ShardCfg.{
  Tgid, ShardConfig, make_shard_config, key2shard, rebalance, level, assign, join, leave,
  join_balance, leave_balance, check_config, gid_servers, is_member, copy, analyze,
}
use mit.ShardCfg.Analyze.{IsAnalysis, analyze-IsAnalysis}
use mit.ShardCfg.Rebalance.{IsRebalanced, rebalance-IsRebalanced}
use mit.ShardCfg.Check.{IsSound, check_config_iff, rebalance-check_config}
use mit.ShardCfg.Membership.Leave.{
  can_leave, leave_refused, leave_partial, leave_balance-check_config,
}
use mit.ShardCfg.Membership.Join.{CanJoin, join_balance-check_config}
use mit.ShardCfg.Keys.{rebalance-gid_servers, copy_lem}

abbrev three : Map Tgid (List String)
three = (pos 2, "b" ∷ []) ∷ (pos 1, "a" ∷ "c" ∷ []) ∷ (pos 7, "d" ∷ []) ∷ []

abbrev skewed : ShardConfig
skewed = record { num = 4; shards = replicate 12 (pos 1); groups = three }

abbrev evened : ShardConfig
evened = record {
  num = 4;
  shards =
      pos 2
      ∷ pos 7
      ∷ pos 2
      ∷ pos 7
      ∷ pos 2
      ∷ pos 7
      ∷ pos 2
      ∷ pos 7
      ∷ pos 1
      ∷ pos 1
      ∷ pos 1
      ∷ pos 1
      ∷ [];
  groups = three;
}

-- All that the tests compute with.
program : Unit {0}
unfolding make_shard_config key2shard rebalance level assign join leave join_balance leave_balance
    check_config gid_servers is_member copy lookup insert erase contains count can_leave ◌+ℤ◌
program = tt

rebalance-skewed : rebalance skewed ≡ returns evened
unfolding program
rebalance-skewed = refl

join_balance-first :
    join_balance three make_shard_config
    ≡ returns (
      record {
        num = 1;
        shards =
            pos 1
            ∷ pos 2
            ∷ pos 7
            ∷ pos 1
            ∷ pos 2
            ∷ pos 7
            ∷ pos 1
            ∷ pos 2
            ∷ pos 7
            ∷ pos 1
            ∷ pos 2
            ∷ pos 7
            ∷ [];
        groups = three;
      },
      true,
    )
unfolding program
join_balance-first = refl

join_shared : join ((pos 3, "d" ∷ []) ∷ []) skewed ≡ fatal
unfolding program
join_shared = refl

key2shard-a : key2shard (0x61 ∷ []) ≡ 4
unfolding program
key2shard-a = refl

skewed-Distinct : Distinct (keys skewed.groups)
unfolding program
skewed-Distinct = (refl, (refl, (refl, tt)))

analyze-IsAnalysis_example : IsAnalysis (keys skewed.groups) skewed.shards (analyze skewed)
unfolding program
analyze-IsAnalysis_example = analyze-IsAnalysis skewed (pos 7) refl (omega arith)

rebalance-IsRebalanced_example :
    (c' : ShardConfig) × (rebalance skewed ≡ returns c') × IsRebalanced skewed c'
rebalance-IsRebalanced_example = rebalance-IsRebalanced skewed refl skewed-Distinct

check_config_iff_example :
    (check_config evened (pos 1 ∷ []) ≡ returns tt) ↔ IsSound evened (pos 1 ∷ [])
check_config_iff_example = check_config_iff evened (pos 1 ∷ []) (omega arith)

rebalance-check_config_example : check_config evened (pos 1 ∷ pos 2 ∷ pos 7 ∷ []) ≡ returns tt
unfolding program
rebalance-check_config_example =
    rebalance-check_config skewed evened (pos 1 ∷ pos 2 ∷ pos 7 ∷ []) refl skewed-Distinct
      rebalance-skewed refl (refl, (refl, (refl, tt)))

leave_refused_example :
    (c' : ShardConfig) × (leave (pos 7 ∷ pos 9 ∷ []) evened ≡ returns (c', false))
    × (c'.num ≡ 4)
    × (c'.shards ≡ evened.shards)
unfolding program
leave_refused_example = leave_refused (pos 7 ∷ pos 9 ∷ []) evened refl

leave_partial_example :
    (c' : ShardConfig) × (leave (pos 7 ∷ pos 9 ∷ []) evened ≡ returns (c', false))
    × (lookup (pos 7) c'.groups ≡ none)
    × (c'.shards ≡ evened.shards)
unfolding program
leave_partial_example = leave_partial (pos 7) (pos 9) evened refl refl

leave_balance-check_config_example :
    (c' : ShardConfig) × (leave_balance (pos 7 ∷ []) evened ≡ returns (c', true))
    × ((g : Tgid)
        → lookup g c'.groups ≡ (if contains g (pos 7 ∷ []) then none else lookup g evened.groups))
    × (check_config c' (keys c'.groups) ≡ returns tt)
unfolding program
leave_balance-check_config_example =
    leave_balance-check_config (pos 7 ∷ []) evened (λ e. cc e) refl refl skewed-Distinct

abbrev newcomers : Map Tgid (List String)
newcomers = (pos 5, "e" ∷ []) ∷ (pos 4, "f" ∷ []) ∷ []

newcomers-CanJoin : CanJoin newcomers evened
unfolding program
newcomers-CanJoin = record {
  some_group = λ e. cc e;
  fresh = (refl, (refl, tt));
  apart = ((refl, (refl, (refl, tt))), ((refl, (refl, (refl, tt))), tt));
  pairwise = ((refl, tt), (tt, tt));
  once = (refl, (refl, tt));
}

join_balance-check_config_example :
    (c' : ShardConfig) × (join_balance newcomers evened ≡ returns (c', true))
    × ((g : Tgid)
        → lookup g c'.groups
          ≡ (if has g newcomers then lookup g newcomers else lookup g evened.groups))
    × (check_config c' (keys c'.groups) ≡ returns tt)
join_balance-check_config_example =
    join_balance-check_config newcomers evened newcomers-CanJoin refl skewed-Distinct

rebalance-gid_servers_example :
    (g : Tgid) × (servers : List String) × (gid_servers evened (key2shard (0x61 ∷ []))
      ≡ returns (g, servers, true))
    × (lookup g skewed.groups ≡ some servers)
rebalance-gid_servers_example =
    rebalance-gid_servers skewed evened (0x61 ∷ []) refl skewed-Distinct (λ e. cc e)
      rebalance-skewed

copy_lem_example :
    ((copy skewed).num ≡ 4)
    × ((copy skewed).shards ≡ replicate 12 (pos 1))
    × ((g : Tgid) → lookup g (copy skewed).groups ≡ lookup g three)
copy_lem_example = copy_lem skewed skewed-Distinct
