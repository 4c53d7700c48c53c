-- ===== src/Labrpc/Dispatch.antt =====
-- Which handler a request reaches, and the whole path of a call.
use Prim.Native.Char.{code}
use Prim.Native.String
use text.Mathlib.TextLemmas.{nil-append, cons-append}
use mit.Base.{
  ◌+◌, String, Bool, true, not, ◌&&◌, none, some, List, [], ◌∷◌, string_eq, nat_eq, ◌≡◌, refl, ◌⊎◌,
  inr, arith, ◌==◌,
}
use mit.Base.Maps.{lookup, insert, lookup-insert, Map}
use mit.Base.Exec.{returns, fatal, panics}
use mit.Labrpc.Service.{
  Codec, ReqMsg, split_last, Method, Service, Server, is_handler, collect, make_service, dispatch,
}

-- The text has no dot.
unfoldable pub no_dot : String → Bool
no_dot String.[] = true
no_dot (String.◌∷◌ c s) = not (code c == b'.') && no_dot s

split_last-no_dot : (s : String) → no_dot s ≡ true → split_last s ≡ none
unfolding no_dot split_last
split_last-no_dot String.[] h = refl
split_last-no_dot (String.◌∷◌ c s) h = ground (arith, split_last-no_dot s)

-- "split Raft.AppendEntries into service and method"
pub split_last-dot :
    (service method : String)
    → no_dot method ≡ true
    → split_last (String.◌++◌ service (String.◌∷◌ "." method)) ≡ some (service, method)
unfolding split_last no_dot
split_last-dot String.[] method h = rw (nil-append, split_last-no_dot method h) refl
split_last-dot (String.◌∷◌ c s) method h =
    rw cons-append (ground (arith, split_last-dot s method h))

module _ {V R : Type 0} where
  collect-lookup :
      (ms : List (Method V R)) (acc : Map String (Method V R)) (m : Method V R) (name : String)
      → lookup name (collect ms acc) ≡ some m
      → ((is_handler m ≡ true) × (m.name ≡ name)) ⊎ (lookup name acc ≡ some m)
  unfolding collect
  collect-lookup [] acc m name h = inr h
  collect-lookup (x ∷ ms) acc m name h = ground (
    arith,
    collect-lookup ms acc m name,
    collect-lookup ms (insert x.name x acc) m name,
    lookup-insert x.name name x acc,
    string_eq.beq_iff name x.name,
  )

  -- A service offers under a name only a method of that name that looks like a handler.
  pub make_service-lookup :
      (svc_name name : String) (ms : List (Method V R)) (m : Method V R)
      → lookup name (make_service svc_name ms).methods ≡ some m
      → (is_handler m ≡ true) × (m.name ≡ name)
  unfolding make_service lookup
  make_service-lookup svc_name name ms m h = ground (arith, collect-lookup ms [] m name)

module _ (codec : Codec) {R : Type 0} where
  open codec use {Value, encode, decode, decode-encode}

  -- A request for "Service.method" runs that method of that service on the value that was sent,
  -- and the reply carries the value that it returns; the counter moves by one.
  pub dispatch-handler :
      (rs : Server Value R) (svc : Service Value R) (m : Method Value R)
      (service method endname : String) (args out : Value) (state state' : R)
      → no_dot method ≡ true
      → lookup service rs.services ≡ some svc
      → lookup method svc.methods ≡ some m
      → m.func args state ≡ returns (out, state')
      → let r =
          dispatch codec rs
            (record {
              endname = endname;
              svc_meth = String.◌++◌ service (String.◌∷◌ "." method);
              args = encode args;
            })
            state in
        (r.0.count ≡ rs.count + 1)
        × (r.1 ≡ returns (record { ok = true; reply = encode out }, state'))
  unfolding dispatch
  dispatch-handler rs svc m service method endname args out state state' dotless found offers ran =
      (refl, ground (arith, split_last-dot service method dotless, decode-encode args))

  -- Without a dot in the name the server panics; an unknown service ends the process.
  pub dispatch_unknown :
      (rs : Server Value R) (req : ReqMsg) (state : R)
      → ((no_dot req.svc_meth ≡ true) → (dispatch codec rs req state).1 ≡ panics)
        × ((service method : String)
            → split_last req.svc_meth ≡ some (service, method)
            → lookup service rs.services ≡ none
            → (dispatch codec rs req state).1 ≡ fatal)
  unfolding dispatch
  dispatch_unknown rs req state = (
    λ h. ground (arith, split_last-no_dot req.svc_meth h),
    λ service method at missing. ground arith,
  )
