-- ===== src/Clnts.antt =====
-- src/tester1/clnts.go: the ends of a clerk to the servers, made when they are first used, and the
-- table of the clerks. The network is passed along; a random name is an argument. A `*Clnt` is its
-- number in the table; a clerk that was deleted is not used again.
pub mod Ends
pub mod Views
pub mod Added
pub mod Refinement
pub mod Reach
pub mod Table
pub mod Cleanup
pub mod NoLeak
mod Tests
use mit.Base.{
  ℕ, suc, ◌+◌, String, Bool, true, false, Option, none, some, List, [], ◌∷◌, if◌then◌else◌, ◌==◌,
  nat_eq, string_eq, contains,
}
use mit.Base.Maps.{Map, lookup, has, insert, erase}
use mit.Base.Exec.{Exec, returns, panics, ◌>>=◌}
use mit.Labrpc
use mit.Labrpc.{Network, ClientEnd, enable, delete_end}
use mit.Labrpc.Service.{Codec, ReqMsg}
use mit.Labrpc.Process.{Sent}
use mit.Labrpc.Process

-- `end`
pub record End : Type 0 where
  pub name : String
  pub client_end : ClientEnd

-- `srvs` is `none` for nil.
pub record Clnt : Type 0 where
  pub ends : Map String End
  pub srvs : Option (List String)

unfoldable pub make_clnt_to : Option (List String) → Clnt
make_clnt_to srvs = record { ends = []; srvs = srvs }

unfoldable pub allowed : Clnt → String → Bool
allowed clnt server = elim clnt.srvs [ none ↦ true | some srvs ↦ contains server srvs ]

-- Clnt.makeEnd; `name` is what Randstring(20) gives.
unfoldable pub make_end : String → String → Clnt → Network → Exec (End × Clnt × Network)
unfolding allowed
make_end name server clnt net = elim (lookup server clnt.ends) [
  | some e ↦ returns (e, clnt, net)
  | none ↦ Labrpc.make_end name net >>= λ (r : Network × ClientEnd).
      let e : End = record { name = name; client_end = r.1 } in
      let net1 = Labrpc.connect name server r.0 in
      returns (
        e,
        record clnt { ends = insert server e clnt.ends },
        if allowed clnt server then enable name true net1 else enable name false net1,
      )
]

-- The loops of the next four: Enable for the ends to the servers that pass the test.
unfoldable pub enable_each : (String → Bool) → Bool → Map String End → Network → Network
enable_each test on [] net = net
enable_each test on ((srv, e) ∷ ends) net =
    enable_each test on ends (if test srv then enable e.name on net else net)

unfoldable pub connect_all : Clnt → Network → Clnt × Network
unfolding enable_each
connect_all clnt net = (record clnt { srvs = none }, enable_each (λ srv. true) true clnt.ends net)

-- A nil slice, `none`, allows all servers.
unfoldable pub connect_to : Option (List String) → Clnt → Network → Clnt × Network
unfolding enable_each allowed
connect_to srvs clnt net =
    let clnt1 = record clnt { srvs = srvs } in
    (clnt1, enable_each (allowed clnt1) true clnt1.ends net)

unfoldable pub disconnect : String → Clnt → Network → Clnt × Network
unfolding enable_each
disconnect srv clnt net = (clnt, enable_each (λ s. s == srv) false clnt.ends net)

unfoldable pub disconnect_all : Clnt → Network → Clnt × Network
unfolding enable_each
disconnect_all clnt net =
    (record clnt { srvs = some [] }, enable_each (λ srv. true) false clnt.ends net)

unfoldable pub delete_ends : Map String End → Network → Exec Network
delete_ends [] net = returns net
delete_ends ((srv, e) ∷ ends) net = delete_end e.name net >>= delete_ends ends

unfoldable pub remove : Clnt → Network → Exec Network
unfolding delete_ends
remove clnt net = delete_ends clnt.ends net

module _ (codec : Codec) where
  open codec use {Value}

  -- Clnt.Call; `network` is what becomes of the request over the network as makeEnd leaves it.
  unfoldable pub call :
      String
      → String
      → String
      → Value
      → Bool
      → (Network → ReqMsg → Option Sent)
      → Clnt
      → Network
      → Exec (Option (Exec (Option Value)) × Clnt × Network)
  unfolding make_end
  call name server method args sent network clnt net =
      make_end name server clnt net >>= λ (r : End × Clnt × Network).
      let e = r.0.client_end in
      returns (Process.call codec e.endname method args sent (network r.2), r.1, r.2)

-- `clerks` is `none` for nil.
pub record Clnts : Type 0 where
  pub net : Network
  pub clerks : Option (Map ℕ Clnt)

unfoldable pub make_clnts : Network → Clnts
make_clnts net = record { net = net; clerks = some [] }

-- Clnts.makeEnd
unfoldable pub make_open_end : String → String → Clnts → Exec (Clnts × ClientEnd)
make_open_end name servername clnts =
    Labrpc.make_end name clnts.net >>= λ (r : Network × ClientEnd).
    returns (record clnts { net = enable name true (Labrpc.connect name servername r.0) }, r.1)

-- MakeClientTo: a write to a nil map panics. `p` is the new pointer.
unfoldable pub make_client_to : ℕ → Option (List String) → Clnts → Exec Clnts
unfolding make_clnt_to
make_client_to p srvs clnts = elim clnts.clerks [
  | none ↦ panics
  | some clerks ↦ returns (record clnts { clerks = some (insert p (make_clnt_to srvs) clerks) })
]

unfoldable pub make_client : ℕ → Clnts → Exec Clnts
unfolding make_client_to
make_client p clnts = make_client_to p none clnts

unfoldable pub remove_all : Map ℕ Clnt → Network → Exec Network
unfolding remove
remove_all [] net = returns net
remove_all ((p, clnt) ∷ clerks) net = remove clnt net >>= remove_all clerks

unfoldable pub cleanup : Clnts → Exec Clnts
unfolding remove_all
cleanup clnts = elim clnts.clerks [
  | none ↦ returns clnts
  | some clerks ↦ remove_all clerks clnts.net >>= λ (net : Network).
      returns (record { net = net; clerks = none })
]

unfoldable pub delete_client : ℕ → Clnts → Exec Clnts
unfolding remove
delete_client p clnts = elim clnts.clerks [
  | none ↦ returns clnts
  | some clerks ↦ elim (lookup p clerks) [
    | none ↦ returns clnts
    | some clnt ↦ remove clnt clnts.net >>= λ (net : Network).
        returns (record { net = net; clerks = some (erase p clerks) })
  ]
]
