-- ===== src/ShardCfg.antt =====
-- src/shardkv1/shardcfg/shardcfg.go: configurations, which assign shards to groups.
-- A method that changes `*ShardConfig` returns the new record beside its result.
-- A group number is a signed integer; `num` is the 64-bit pattern of the configuration number.
-- A map is an association list, whose order is the order that one `range` loop takes.
pub mod Counts
pub mod Analyze
pub mod Level
pub mod Assign
pub mod Rebalance
pub mod Check
pub mod Membership
pub mod Keys
mod Tests
use Prim.Native.Nat.{bit_xor}
use mit.Base.{
  ℕ, zero, suc, ◌+◌, ◌*◌, ◌%◌, ◌^◌, String, Bool, true, false, not, ◌||◌, Option, none, some, List,
  [], ◌∷◌, map, ltb, leb, if◌then◌else◌, or_else, is_some, ◌==◌, string_eq, nat_eq, length,
  get_elem?, set, replicate, contains,
}
use mit.Base.Int.{ℤ, pos, negsuc, ◌+ℤ◌, ltb_ℤ, int_eq}
use mit.Base.Maps.{Map, keys, lookup, has, insert, erase}
use mit.Base.Exec.{Exec, returns, fatal, panics, diverges, ◌>>=◌, ◌>>◌}

abbrev pub Tgid : Type 0
Tgid = ℤ

-- NShards
abbrev pub nshards : ℕ
nshards = 12

-- The 32-bit FNV-1a hash, as the standard library's `hash/fnv` computes it.
abbrev pub fnv_step : ℕ → ℕ → ℕ
fnv_step h b = (bit_xor h b * 16777619) % 2 ^ 32

unfoldable pub fnv32a_from : ℕ → List ℕ → ℕ
fnv32a_from h [] = h
fnv32a_from h (b ∷ bs) = fnv32a_from (fnv_step h b) bs

unfoldable pub fnv32a : List ℕ → ℕ
unfolding fnv32a_from
fnv32a bytes = fnv32a_from 2166136261 bytes

-- Key2Shard, of the key's bytes
unfoldable pub key2shard : List ℕ → ℕ
unfolding fnv32a
key2shard key = fnv32a key % nshards

pub record ShardConfig : Type 0 where
  pub num : ℕ
  pub shards : List Tgid
  pub groups : Map Tgid (List String)

-- MakeShardConfig: the zero value of the array is group 0 for each shard.
unfoldable pub make_shard_config : ShardConfig
make_shard_config = record { num = 0; shards = replicate nshards (pos 0); groups = [] }

-- The loop of Copy over `cfg.Groups`.
unfoldable pub copy_groups :
    Map Tgid (List String) → Map Tgid (List String) → Map Tgid (List String)
copy_groups [] acc = acc
copy_groups ((k, srvs) ∷ m) acc = copy_groups m (insert k srvs acc)

unfoldable pub copy : ShardConfig → ShardConfig
unfolding copy_groups make_shard_config
copy cfg = record make_shard_config {
  num = cfg.num;
  shards = cfg.shards;
  groups = copy_groups cfg.groups make_shard_config.groups;
}

-- `counts[g] += 1` for each shard
unfoldable pub tally : List Tgid → Map Tgid ℕ → Map Tgid ℕ
tally [] counts = counts
tally (g ∷ gs) counts = tally gs (insert g (or_else (lookup g counts) 0 + 1) counts)

-- `counts[g]`, which is 0 at a missing key
abbrev pub counts_at : Map Tgid ℕ → Tgid → ℕ
counts_at counts g = or_else (lookup g counts) 0

-- slices.Sort
unfoldable pub sort_insert : Tgid → List Tgid → List Tgid
sort_insert g [] = g ∷ []
sort_insert g (x ∷ xs) = if ltb_ℤ x g then x ∷ sort_insert g xs else g ∷ x ∷ xs

unfoldable pub sort_gids : List Tgid → List Tgid
unfolding sort_insert
sort_gids [] = []
sort_gids (g ∷ gs) = sort_insert g (sort_gids gs)

-- The four results of analyze: mostgroup, mostn, leastgroup, leastn.
pub record Extremes : Type 0 where
  pub mg : Tgid
  pub mn : ℤ
  pub lg : Tgid
  pub ln : ℤ

abbrev pub no_extremes : Extremes
no_extremes = record { mg = negsuc 0; mn = negsuc 0; lg = negsuc 0; ln = pos 257 }

-- The two tests of the loop body of analyze.
abbrev pub see_least : Tgid → ℕ → Extremes → Extremes
see_least g n e = if ltb_ℤ (pos n) e.ln then record e { ln = pos n; lg = g } else e

abbrev pub see_most : Tgid → ℕ → Extremes → Extremes
see_most g n e = if ltb_ℤ e.mn (pos n) then record e { mn = pos n; mg = g } else e

unfoldable pub scan : (Tgid → ℕ) → List Tgid → Extremes → Extremes
scan counts [] e = e
scan counts (g ∷ gs) e = scan counts gs (see_most g (counts g) (see_least g (counts g) e))

unfoldable pub analyze : ShardConfig → Extremes
unfolding tally sort_gids scan
analyze c = scan (counts_at (tally c.shards [])) (sort_gids (keys c.groups)) no_extremes

unfoldable pub least : ShardConfig → Tgid
unfolding analyze
least c = (analyze c).lg

-- "assign all unassigned shards": `range c.Shards` walks a copy of the array, from index `s`.
unfoldable pub assign : List Tgid → ℕ → ShardConfig → ShardConfig
unfolding least
assign [] s c = c
assign (g ∷ gs) s c =
    assign gs (suc s) (if has g c.groups then c else record c { shards = set c.shards s (least c) })

-- "move 1 shard from mg to lg"
unfoldable pub move_one : Tgid → Tgid → List Tgid → List Tgid
move_one mg lg [] = []
move_one mg lg (g ∷ gs) = if g == mg then lg ∷ gs else g ∷ move_one mg lg gs

-- "move shards from most to least heavily loaded", the `for` loop of Rebalance on fuel
unfoldable pub level : ℕ → ShardConfig → Exec ShardConfig
unfolding analyze move_one
level zero c = diverges
level (suc fuel) c =
    let e = analyze c in
    let rest = level fuel (record c { shards = move_one e.mg e.lg c.shards }) in
    if ltb_ℤ e.mn (e.ln +ℤ pos 2) then returns c else rest

abbrev pub level_fuel : ℕ
level_fuel = 145

unfoldable pub rebalance : ShardConfig → Exec ShardConfig
rebalance c =
    if ltb (length c.groups) 1
    then returns (record c { shards = map (λ _. pos 0) c.shards })
    else level level_fuel (assign c.shards 0 c)

-- Whether a server of `servers` stands in a group of the configuration: the three inner loops of
-- Join, which end the process at the first hit.
unfoldable pub shares_server : List String → List String → Bool
shares_server [] servers = false
shares_server (s1 ∷ xservers) servers = contains s1 servers || shares_server xservers servers

unfoldable pub overlaps : List String → Map Tgid (List String) → Bool
unfolding shares_server
overlaps servers [] = false
overlaps servers ((xgid, xservers) ∷ m) = shares_server xservers servers || overlaps servers m

abbrev pub bump_num : ShardConfig → ShardConfig
bump_num cfg = record cfg { num = (cfg.num + 1) % 2 ^ 64 }

unfoldable pub join_from : Map Tgid (List String) → Bool → ShardConfig → Exec (ShardConfig × Bool)
unfolding overlaps
join_from [] changed cfg = if not changed then fatal else returns (bump_num cfg, true)
join_from ((gid, servers) ∷ rest) changed cfg =
    let joined = join_from rest true (record cfg { groups = insert gid servers cfg.groups }) in
    if has gid cfg.groups
    then returns (cfg, false)
    else if overlaps servers cfg.groups
    then fatal
    else joined

unfoldable pub join : Map Tgid (List String) → ShardConfig → Exec (ShardConfig × Bool)
unfolding join_from
join servers cfg = join_from servers false cfg

unfoldable pub leave_from : List Tgid → Bool → ShardConfig → Exec (ShardConfig × Bool)
leave_from [] changed cfg = if not changed then fatal else returns (bump_num cfg, true)
leave_from (gid ∷ gids) changed cfg =
    let left = leave_from gids true (record cfg { groups = erase gid cfg.groups }) in
    if not (has gid cfg.groups) then returns (cfg, false) else left

unfoldable pub leave : List Tgid → ShardConfig → Exec (ShardConfig × Bool)
unfolding leave_from
leave gids cfg = leave_from gids false cfg

-- `if !changed { return false }; cfg.Rebalance(); return true`
abbrev pub rebalance_if : ShardConfig × Bool → Exec (ShardConfig × Bool)
rebalance_if (cfg, ok) =
    if ok then (do c ← rebalance cfg; returns (c, true)) else returns (cfg, false)

unfoldable pub join_balance : Map Tgid (List String) → ShardConfig → Exec (ShardConfig × Bool)
unfolding join rebalance
join_balance servers cfg = join servers cfg >>= rebalance_if

unfoldable pub leave_balance : List Tgid → ShardConfig → Exec (ShardConfig × Bool)
unfolding leave rebalance
leave_balance gids cfg = leave gids cfg >>= rebalance_if

-- GidServers: an index out of range panics; a missing group gives no servers and false.
unfoldable pub gid_servers : ShardConfig → ℕ → Exec (Tgid × List String × Bool)
gid_servers cfg sh = elim (get_elem? cfg.shards sh) [
  | none ↦ panics
  | some gid ↦ returns (gid, or_else (lookup gid cfg.groups) [], has gid cfg.groups)
]

unfoldable pub is_member_of : Tgid → List Tgid → Bool
is_member_of gid [] = false
is_member_of gid (g ∷ gs) = if g == gid then true else is_member_of gid gs

unfoldable pub is_member : Tgid → ShardConfig → Bool
unfolding is_member_of
is_member gid cfg = is_member_of gid cfg.shards

-- CheckConfig's loops: "are the groups as expected?", "any un-allocated shards?"
unfoldable pub all_have : List Tgid → Map Tgid (List String) → Exec (Unit {0})
all_have [] groups = returns tt
all_have (g ∷ gs) groups = if not (has g groups) then fatal else all_have gs groups

-- "more or less balanced sharding?": the greatest and the least count over the groups
unfoldable pub spread : (Tgid → ℕ) → List Tgid → ℕ → ℕ → ℕ × ℕ
spread counts [] max min = (max, min)
spread counts (g ∷ gs) max min =
    spread counts gs (if ltb max (counts g) then counts g else max)
      (if ltb (counts g) min then counts g else min)

unfoldable pub check_config : ShardConfig → List Tgid → Exec (Unit {0})
unfolding all_have spread tally
check_config cfg groups = do
  (if not (length cfg.groups == length groups) then fatal else returns tt)
  all_have groups cfg.groups
  (if ltb 0 (length groups) then all_have cfg.shards cfg.groups else returns tt)
  let (max, min) = spread (counts_at (tally cfg.shards [])) (keys cfg.groups) 0 257
  if ltb (min + 1) max then fatal else returns tt
