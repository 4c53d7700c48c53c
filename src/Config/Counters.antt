-- ===== src/Config/Counters.antt =====
-- Begin, Op and End: what a test reports at its end.
use mit.Base.Int.{int_eq}
use mit.Base.{
  ℕ, suc, ◌+◌, ◌-◌, ◌*◌, ◌%◌, ◌^◌, ◌<◌, Bool, true, false, Option, none, some, List, [], ◌∷◌,
  length, ◌≡◌, if◌then◌else◌, ◌||◌, ◌&&◌, not, ltb, nat_eq,
}
use mit.Base.Int.{pos}
use mit.Base.Exec.{Exec, returns, fatal}
use mit.Labrpc.{count_request, count_reply}
use mit.Groups.{ServerGrp}
use mit.Config.{Config, Summary, op}

-- What happens in a test: a call of a clerk, a request of so many bytes, a reply, a failure.
pub data Event : Type 0 where
  operation failure : Event
  request : ℕ → Event
  reply : ℕ → Event

abbrev pub happens : Event → Config → Config
happens operation cfg = op cfg
happens failure cfg = record cfg { failed = true }
happens (request n) cfg = record cfg { net = count_request n cfg.net }
happens (reply n) cfg = record cfg { net = count_reply n cfg.net }

abbrev pub all_happen : List Event → Config → Config
all_happen [] cfg = cfg
all_happen (e ∷ es) cfg = all_happen es (happens e cfg)

abbrev pub operations : List Event → ℕ
operations [] = 0
operations (operation ∷ es) = suc (operations es)
operations (_ ∷ es) = operations es

abbrev pub requests : List Event → ℕ
requests [] = 0
requests (request n ∷ es) = suc (requests es)
requests (_ ∷ es) = requests es

abbrev pub has_failure : List Event → Bool
has_failure [] = false
has_failure (failure ∷ es) = true
has_failure (_ ∷ es) = has_failure es

pub record IsAfter (es : List Event) (cfg cfg' : Config) : Type 0 where
  pub same_grps : cfg'.grps ≡ cfg.grps
  pub same_start : cfg'.start ≡ cfg.start
  pub same_t0 : cfg'.t0 ≡ cfg.t0
  pub same_rpcs0 : cfg'.rpcs0 ≡ cfg.rpcs0
  pub more_ops : cfg'.ops ≡ (cfg.ops + operations es) % 2 ^ 32
  pub more_rpcs : cfg'.net.count ≡ (cfg.net.count + requests es) % 2 ^ 32
  pub fails : cfg'.failed ≡ (cfg.failed || has_failure es)

-- The counters stay numbers of 32 bits.
record Fits (cfg : Config) : Type 0 where
  ops_fit : cfg.ops < 2 ^ 32
  rpcs_fit : cfg.net.count < 2 ^ 32

-- What End gives at `now`, after a test with the events `es` that began at `t0`.
abbrev pub outcome : ℕ → ℕ → List Event → ServerGrp → Config → Exec (Option Summary)
outcome t0 now es sg cfg =
    let failed = cfg.failed || has_failure es in
    if not failed && ltb (120 * 10 ^ 9) (now - cfg.start)
    then fatal
    else if failed
    then returns none
    else returns (
        some (record {
          time = now - t0;
          npeers = length sg.srvs;
          nrpc = pos (requests es);
          nops = operations es;
        }))
