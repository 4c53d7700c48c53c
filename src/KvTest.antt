-- ===== src/KvTest.antt =====
-- src/kvtest1/kvtest.go and src/kvtest1/porcupine.go: the operations of the key/value tests, which go
-- through a clerk and are logged for the linearizability checker. The clerk is what the tests test: a
-- parameter with a state. A version is the pattern of a uint64; a client, and the numbers that it
-- writes, are natural numbers. encoding/json is a parameter.
pub mod Puts
pub mod Appending
pub mod Entries
pub mod Appends
pub mod Concurrent
pub mod Clients
mod Tests
use mit.Base.{
  ℕ, zero, suc, ◌+◌, ◌-◌, ◌%◌, ◌^◌, String, Bool, true, false, not, ◌&&◌, ◌||◌, Option, none, some,
  List, [], ◌∷◌, ◌++◌, if◌then◌else◌, or_else, ltb, ◌==◌, nat_eq, string_eq, length, get_elem?,
}
use mit.Base.Maps.{Map, lookup, insert}
use mit.Base.Exec.{Exec, returns, fatal, panics, diverges, ◌>>=◌}
use mit.Models.{Operation, KvInput, KvOutput}

-- IKVClerk, for a clerk whose state is an `S`.
pub record Clerk (S : Type 0) : Type 0 where
  pub get : String → S → S × String × ℕ × String
  pub put : String → String → ℕ → S → S × String

-- encoding/json for one type
pub record Json (A : Type 0) : Type 0 where
  pub marshal : A → Option String
  pub unmarshal : String → Option A

-- The log is `none` where the pointer is nil. `ops` counts the calls of Config.Op.
pub record Test (S : Type 0) : Type 0 where
  pub oplog : Option (List Operation)
  pub ops : ℕ
  pub clerk : S

abbrev pub next_version : ℕ → ℕ
next_version ver = (ver + 1) % 2 ^ 64

-- OpLog.Append, where there is a log
abbrev pub append_op : Operation → Option (List Operation) → Option (List Operation)
append_op op none = none
append_op op (some operations) = some (operations ++ op ∷ [])

module _ {S : Type 0} (ck : Clerk S) where
  -- Get, as a function and as a method
  unfoldable pub get : String → ℕ → Test S → Test S × String × ℕ × String
  get key cli ts =
      let (s, val, ver, err) = ck.get key ts.clerk in
      let op : Operation = record {
        client_id = cli;
        input = record { op = 0; key = key; value = ""; version = 0 };
        output = record { value = val; version = ver; err = err };
      } in
      (record { oplog = append_op op ts.oplog; ops = ts.ops + 1; clerk = s }, val, ver, err)

  -- Put, as a function and as a method
  unfoldable pub put : String → String → ℕ → ℕ → Test S → Test S × String
  put key value version cli ts =
      let (s, err) = ck.put key value version ts.clerk in
      let op : Operation = record {
        client_id = cli;
        input = record { op = 1; key = key; value = value; version = version };
        output = record { value = ""; version = 0; err = err };
      } in
      (record { oplog = append_op op ts.oplog; ops = ts.ops + 1; clerk = s }, err)

  -- PutAtLeastOnce, on fuel
  unfoldable pub put_at_least_once : ℕ → String → String → ℕ → ℕ → Test S → Exec (Test S × ℕ)
  unfolding put
  put_at_least_once zero key value ver me ts = diverges
  put_at_least_once (suc fuel) key value ver me ts =
      let (ts1, err) = put key value ver me ts in
      let next = put_at_least_once fuel key value (next_version ver) me ts1 in
      let again = put_at_least_once fuel key value ver me ts1 in
      if err == "OK"
      then returns (ts1, next_version ver)
      else if err == "ErrMaybe" || err == "ErrVersion"
      then next
      else if not (ver == 0)
      then fatal
      else again

  unfoldable pub check_get : String → String → ℕ → Test S → Exec (Test S)
  unfolding get
  check_get key value version ts =
      let (ts1, val, ver, err) = get key 0 ts in
      if not (err == "OK")
      then fatal
      else if not (val == value) || not (ver == version)
      then fatal
      else returns ts1

  module _ {A : Type 0} (json : Json A) where
    unfoldable pub get_json : String → ℕ → Test S → Exec (Test S × ℕ × A)
    unfolding get
    get_json key me ts =
        let (ts1, val, ver, err) = get key me ts in
        if err == "OK"
        then elim (json.unmarshal val) [ none ↦ fatal | some v ↦ returns (ts1, ver, v) ]
        else fatal

    unfoldable pub put_json : String → A → ℕ → ℕ → Test S → Exec (Test S × String)
    unfolding put
    put_json key v ver me ts = elim (json.marshal v) [
      | none ↦ fatal
      | some b ↦ returns (put key b ver me ts)
    ]

    -- PutAtLeastOnceJson, on fuel: each put is at version 0, as in the code.
    unfoldable pub put_at_least_once_json : ℕ → String → A → ℕ → ℕ → Test S → Exec (Test S × ℕ)
    unfolding put_json
    put_at_least_once_json zero key value ver me ts = diverges
    put_at_least_once_json (suc fuel) key value ver me ts =
        let next =
          λ (ts1 : Test S). put_at_least_once_json fuel key value (next_version ver) me ts1 in
        put_json key value 0 me ts >>= λ (r : Test S × String).
        if not (r.1 == "ErrMaybe") then returns (r.0, ver) else next r.0

pub record EntryV : Type 0 where
  pub id : ℕ
  pub v : ℕ

-- `e.Id != me && e.V != ver`
abbrev pub wrong_value : EntryV → ℕ → ℕ → Bool
wrong_value e me ver = not (e.id == me) && not (e.v == ver)

-- Nok and Nmaybe
pub record ClntRes : Type 0 where
  pub nok : ℕ
  pub nmaybe : ℕ

abbrev pub add_res : ClntRes → ClntRes → ClntRes
add_res a b = record { nok = a.nok + b.nok; nmaybe = a.nmaybe + b.nmaybe }

unfoldable pub sum_res : List ClntRes → ClntRes → ClntRes
sum_res [] res = res
sum_res (r ∷ rs) res = sum_res rs (add_res res r)

-- "verm[k] = rpc.Tversion(0)" for each key
unfoldable pub start_versions : List String → Map String ℕ → Map String ℕ
start_versions [] verm = verm
start_versions (k ∷ ka) verm = start_versions ka (insert k 0 verm)

module _ {S : Type 0} (ck : Clerk S) (json : Json EntryV) where
  -- OnePut, on fuel
  unfoldable pub one_put : ℕ → ℕ → String → ℕ → Test S → Exec (Test S × ℕ × Bool)
  unfolding put_json get_json
  one_put zero me key ver ts = diverges
  one_put (suc fuel) me key ver ts =
      let again = λ (ver0 : ℕ) (ts2 : Test S). one_put fuel me key ver0 ts2 in
      put_json ck json key (record { id = me; v = ver }) ver me ts >>= λ (r : Test S × String).
      if not (r.1 == "OK" || r.1 == "ErrVersion" || r.1 == "ErrMaybe")
      then fatal
      else (get_json ck json key me r.0 >>= λ (g : Test S × ℕ × EntryV).
          if (r.1 == "OK" && g.1 == next_version ver) && wrong_value g.2 me ver
          then fatal
          else if r.1 == "OK" || r.1 == "ErrMaybe"
          then returns (g.0, g.1, r.1 == "OK")
          else again g.1 g.0)

  -- One round of OneClientPut, for the key that it draws.
  unfoldable pub client_put :
      ℕ → ℕ → String → Map String ℕ × ClntRes × Test S → Exec (Map String ℕ × ClntRes × Test S)
  unfolding one_put
  client_put fuel cli k (verm, res, ts) =
      one_put fuel cli k (or_else (lookup k verm) 0) ts >>= λ (r : Test S × ℕ × Bool). returns (
        insert k r.1 verm,
        (if r.2 then record res { nok = res.nok + 1 } else record res { nmaybe = res.nmaybe + 1 }),
        r.0,
      )

  -- OneClientPut, for the keys that it draws until `done`.
  unfoldable pub client_puts :
      ℕ → ℕ → List String → Map String ℕ × ClntRes × Test S → Exec (Map String ℕ × ClntRes × Test S)
  unfolding client_put
  client_puts fuel cli [] st = returns st
  client_puts fuel cli (k ∷ ks) st = client_put fuel cli k st >>= client_puts fuel cli ks

  unfoldable pub one_client_put :
      ℕ → ℕ → List String → List String → Test S → Exec (ClntRes × Test S)
  unfolding client_puts start_versions
  one_client_put fuel cli ka drawn ts =
      client_puts fuel cli drawn (start_versions ka [], record { nok = 0; nmaybe = 0 }, ts)
      >>= λ (st : Map String ℕ × ClntRes × Test S). returns (st.1, st.2)

  -- CheckPutConcurrent; `client` is the -1 that it passes for the client's number.
  unfoldable pub check_put_concurrent :
      ℕ → String → List ClntRes → ClntRes → Bool → Test S → Exec (ClntRes × Test S)
  unfolding get_json sum_res
  check_put_concurrent client key rs res reliable ts =
      get_json ck json key client ts >>= λ (g : Test S × ℕ × EntryV).
      let total = sum_res rs res in
      if reliable
      then (if not (g.1 == total.nok % 2 ^ 64) then fatal else returns (total, g.0))
      else if ltb ((total.nok + total.nmaybe) % 2 ^ 64) g.1
      then fatal
      else returns (total, g.0)
