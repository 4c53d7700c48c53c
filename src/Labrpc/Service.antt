-- ===== src/Labrpc/Service.antt =====
-- src/labrpc/labrpc.go: `Server` and `Service`, which find and call the handler of a request.
-- The values that a request carries are bytes made by labgob, over encoding/gob: a parameter with
-- its round trip. Handlers change the receivers, which are one state `R`.
use Prim.Native.Char.{code}
use mit.Base.{
  ℕ, ◌+◌, String, Bool, true, false, not, ◌||◌, Option, none, some, List, [], ◌∷◌, if◌then◌else◌,
  ◌==◌, string_eq, nat_eq, ◌≡◌,
}
use mit.Base.Maps.{Map, lookup, insert}
use mit.Base.Exec.{Exec, returns, fatal, panics, ◌>>=◌}
use mit.Labrpc.{Network, ServerRef, server_at}

-- What encoding/gob promises of the values that are sent.
pub record Codec : Type 1 where
  pub Value : Type 0
  pub encode : Value → List ℕ
  pub decode : List ℕ → Option Value
  pub decode-encode : (v : Value) → decode (encode v) ≡ some v
  pub zero_value : Value

pub record ReqMsg : Type 0 where
  pub endname : String
  pub svc_meth : String
  pub args : List ℕ

pub record ReplyMsg : Type 0 where
  pub ok : Bool
  pub reply : List ℕ

-- replyMsg{false, nil}
abbrev pub no_reply : ReplyMsg
no_reply = record { ok = false; reply = [] }

-- The text before and behind the last dot: `strings.LastIndex` and the two slices.
unfoldable pub split_last : String → Option (String × String)
split_last String.[] = none
split_last (String.◌∷◌ c s) = elim (split_last s) [
  | some (a, b) ↦ some (String.◌∷◌ c a, b)
  | none ↦ if code c == b'.' then some (String.[], s) else none
]

-- A method as reflection describes it: what MakeService looks at, and what calling it does.
pub record Method (V R : Type 0) : Type 0 where
  pub name : String
  pub exported : Bool
  pub num_in : ℕ
  pub in2_is_ptr : Bool
  pub num_out : ℕ
  pub func : V → R → Exec (V × R)

pub record Service (V R : Type 0) : Type 0 where
  pub name : String
  pub methods : Map String (Method V R)

module _ {V R : Type 0} where
  -- "the method looks like a handler"
  unfoldable pub is_handler : Method V R → Bool
  is_handler method = not (
      not method.exported
      || not (method.num_in == 3)
      || not method.in2_is_ptr
      || not (method.num_out == 0))

  unfoldable pub collect : List (Method V R) → Map String (Method V R) → Map String (Method V R)
  unfolding is_handler
  collect [] methods = methods
  collect (method ∷ rest) methods =
      collect rest (if is_handler method then insert method.name method methods else methods)

  -- MakeService, of the receiver's type name and its methods
  unfoldable pub make_service : String → List (Method V R) → Service V R
  unfolding collect
  make_service name methods = record { name = name; methods = collect methods [] }

pub record Server (V R : Type 0) : Type 0 where
  pub services : Map String (Service V R)
  pub count : ℕ

module _ {V R : Type 0} where
  unfoldable pub make_server : Server V R
  make_server = record { services = []; count = 0 }

  unfoldable pub add_service : Service V R → Server V R → Server V R
  add_service svc rs = record rs { services = insert svc.name svc rs.services }

  unfoldable pub get_count : Server V R → ℕ
  get_count rs = rs.count

-- Network.GetCount: the method of a nil server panics.
unfoldable pub net_get_count : {V R : Type 0} → (ServerRef → Server V R) → String → Network → Exec ℕ
unfolding get_count
net_get_count objects servername rn = elim (server_at rn servername) [
  | none ↦ panics
  | some rs ↦ returns (get_count (objects rs))
]

-- `ad.Decode(args)`, whose error is not looked at
abbrev pub decode_or_zero : (codec : Codec) → List ℕ → codec.Value
decode_or_zero codec bytes = elim (codec.decode bytes) [ none ↦ codec.zero_value | some v ↦ v ]

module _ (codec : Codec) {R : Type 0} where
  open codec use {Value, encode}

  -- Service.dispatch: an argument that does not decode is left at its zero value.
  unfoldable pub service_dispatch : Service Value R → String → ReqMsg → R → Exec (ReplyMsg × R)
  service_dispatch svc methname req state = elim (lookup methname svc.methods) [
    | none ↦ fatal
    | some method ↦ method.func (decode_or_zero codec req.args) state >>= λ (out : Value × R).
        returns (record { ok = true; reply = encode out.0 }, out.1)
  ]

  -- Server.dispatch: the counter moves on every path; with no dot the slice expression panics.
  unfoldable pub dispatch : Server Value R → ReqMsg → R → Server Value R × Exec (ReplyMsg × R)
  unfolding service_dispatch split_last
  dispatch rs req state = (
    record rs { count = rs.count + 1 },
    elim (split_last req.svc_meth) [
      | none ↦ panics
      | some (service_name, method_name) ↦ elim (lookup service_name rs.services) [
        | none ↦ fatal
        | some service ↦ service_dispatch service method_name req state
      ]
    ],
  )
