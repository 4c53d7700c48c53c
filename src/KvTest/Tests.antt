-- ===== src/KvTest/Tests.antt =====
-- The key/value tests over a small server that keeps its promises, and the theorems at it.
use Prim.Native.Char.{code}
use mit.Base.{
  ℕ, zero, suc, ◌+◌, ◌%◌, ◌^◌, String, false, Option, none, some, List, [], ◌∷◌, if◌then◌else◌,
  ◌==◌, nat_eq, string_eq, nat_beq_iff, ◌≡◌, refl, ◌↔◌, arith, Option-cases, inl, inr,
}
use mit.Base.Maps.{Map, lookup, insert, lookup-insert}
use mit.Base.Exec.{returns, fatal}
use mit.Models.{Operation, KvState, step_kv, init}
use mit.Models.Versions.{Accepts, nothing, accepted, puts}
use mit.KvTest.{
  Clerk, Json, Test, EntryV, ClntRes, put_at_least_once, put_at_least_once_json, check_get, one_put,
  one_client_put, check_put_concurrent, sum_res,
}
use mit.KvTest.Appending.{EntryN, check_appends}
use mit.KvTest.Puts.{
  Serves, put_at_least_once_returns, check_get-put_at_least_once, put_at_least_once_json_refused,
}
use mit.KvTest.Clients.{RoundTrips}
use mit.KvTest.Concurrent.{check_put_concurrent-Accepts, no_res}
use mit.KvTest.Appends.{IsAppended, check_appends_iff}

abbrev Store : Type 0
Store = Map String KvState

abbrev server_put : String → String → ℕ → Store → Store × String
server_put key v ver s = elim (lookup key s) [
  | none ↦
      if ver == 0 then (insert key (record { value = v; version = 1 }) s, "OK") else (s, "ErrNoKey")
  | some st ↦
      if ver == st.version
      then (insert key (record { value = v; version = (st.version + 1) % 2 ^ 64 }) s, "OK")
      else (s, "ErrVersion")
]

abbrev server_get : String → Store → Store × String × ℕ × String
server_get key s = elim (lookup key s) [
  | none ↦ (s, "", 0, "ErrNoKey")
  | some st ↦ (s, st.value, st.version, "OK")
]

abbrev server : Clerk Store
server = record { get = server_get; put = server_put }

abbrev version_of : String → Store → ℕ
version_of key s = elim (lookup key s) [ none ↦ 0 | some st ↦ st.version ]

abbrev value_of : String → Store → String
value_of key s = elim (lookup key s) [ none ↦ "" | some st ↦ st.value ]

server-Serves : Serves server
server-Serves = record {
  version = version_of;
  value = value_of;
  put_ok = λ key v s. elim (Option-cases (lookup key s)) [
    | inl e ↦ ground arith
    | inr (st, e) ↦ ground (arith, nat_beq_iff st.version st.version)
  ];
  put_version = λ key v s. elim (Option-cases (lookup key s)) [
    | inl e ↦ ground (
      arith,
      lookup-insert key key (record { value = v; version = 1 }) s,
      string_eq.beq_iff key key,
    )
    | inr (st, e) ↦ ground (
      arith,
      nat_beq_iff st.version st.version,
      string_eq.beq_iff key key,
      lookup-insert key key (record { value = v; version = (st.version + 1) % 2 ^ 64 }) s,
    )
  ];
  put_value = λ key v s. elim (Option-cases (lookup key s)) [
    | inl e ↦ ground (
      arith,
      lookup-insert key key (record { value = v; version = 1 }) s,
      string_eq.beq_iff key key,
    )
    | inr (st, e) ↦ ground (
      arith,
      nat_beq_iff st.version st.version,
      string_eq.beq_iff key key,
      lookup-insert key key (record { value = v; version = (st.version + 1) % 2 ^ 64 }) s,
    )
  ];
  old_refused = λ key v ver s below. elim (Option-cases (lookup key s)) [
    | inl e ↦ absurd (ground arith)
    | inr (st, e) ↦ ground (arith, nat_beq_iff ver st.version)
  ];
  old_keeps = λ key v ver s below. elim (Option-cases (lookup key s)) [
    | inl e ↦ absurd (ground arith)
    | inr (st, e) ↦
        (ground (arith, nat_beq_iff ver st.version), ground (arith, nat_beq_iff ver st.version))
  ];
  get_found = λ key s there. elim (Option-cases (lookup key s)) [
    | inl e ↦ absurd (ground arith)
    | inr (st, e) ↦ (ground arith, ground arith, ground arith)
  ];
  get_keeps = λ key k s. elim (Option-cases (lookup key s)) [
    | inl e ↦ (ground arith, ground arith)
    | inr (st, e) ↦ (ground arith, ground arith)
  ];
  put_keeps_others = λ key k v ver s ne. elim (Option-cases (lookup key s)) [
    | inl e ↦
        ground (
          arith,
          string_eq.beq_iff k key,
          lookup-insert key k (record { value = v; version = 1 }) s,
        )
    | inr (st, e) ↦ ground (
      arith,
      string_eq.beq_iff k key,
      lookup-insert key k (record { value = v; version = (st.version + 1) % 2 ^ 64 }) s,
    )
  ];
}

-- The text of two numbers, in unary.
abbrev ones : ℕ → String → String
ones zero rest = String.◌∷◌ "," rest
ones (suc n) rest = String.◌∷◌ "1" (ones n rest)

abbrev count_ones : String → Option (ℕ × String)
count_ones String.[] = none
count_ones (String.◌∷◌ c s) = elim (count_ones s) [
  | none ↦ if code c == b'1' then none else some (0, s)
  | some (n, rest) ↦ if code c == b'1' then some (n + 1, rest) else some (0, s)
]

ones_trip : (n : ℕ) (rest : String) → count_ones (ones n rest) ≡ some (n, rest)
ones_trip zero rest = elim (Option-cases (count_ones rest)) [
  | inl e ↦ ground arith
  | inr (x, e) ↦ ground arith
]
ones_trip (suc n) rest = ground (arith, ones_trip n rest)

abbrev write_entry : EntryV → String
write_entry e = ones e.id (ones e.v "")

abbrev read_entry : String → Option EntryV
read_entry s = elim (count_ones s) [
  | none ↦ none
  | some (id, rest) ↦ elim (count_ones rest) [
    | none ↦ none
    | some (v, _) ↦ some (record { id = id; v = v })
  ]
]

abbrev unary : Json EntryV
unary = record { marshal = λ e. some (write_entry e); unmarshal = read_entry }

unary-RoundTrips : RoundTrips unary
unary-RoundTrips = record {
  text = write_entry;
  marshals = λ e. refl;
  unmarshals = λ e. ground (arith, ones_trip e.id (ones e.v ""), ones_trip e.v "");
}

abbrev at_version_2 : String → Test Store
at_version_2 text = record {
  oplog = some [];
  ops = 0;
  clerk = ("a", record { value = text; version = 2 }) ∷ [];
}

unfold_all : Unit {0}
unfolding put_at_least_once put_at_least_once_json check_get one_put one_client_put
    check_put_concurrent check_appends lookup insert step_kv init puts sum_res
unfold_all = tt

put_at_least_once_returns_example :
    (ts' : Test Store) × (put_at_least_once server 3 "a" "new" 0 0 (at_version_2 "old")
      ≡ returns (ts', 3))
    × (server-Serves.version "a" ts'.clerk ≡ 3)
    × (server-Serves.value "a" ts'.clerk ≡ "new")
unfolding unfold_all server-Serves
put_at_least_once_returns_example =
    put_at_least_once_returns server server-Serves 2 "a" "new" 0 0 (at_version_2 "old") refl
      (omega arith)

check_get-put_at_least_once_example :
    (ts1 ts' : Test Store) × (put_at_least_once server 2 "a" "new" 1 0 (at_version_2 "old")
      ≡ returns (ts1, 3))
    × (check_get server "a" "new" 3 ts1 ≡ returns ts')
unfolding unfold_all server-Serves
check_get-put_at_least_once_example =
    check_get-put_at_least_once server server-Serves 1 "a" "new" 1 0 (at_version_2 "old") refl
      (omega arith)

put_at_least_once_json_refused_example :
    (ts' : Test Store) × (put_at_least_once_json server unary 1 "a"
        (record { id = 0; v = 2 })
        2
        0
        (at_version_2 "old")
      ≡ returns (ts', 2))
    × (server-Serves.version "a" ts'.clerk ≡ 2)
    × (server-Serves.value "a" ts'.clerk ≡ "old")
unfolding unfold_all server-Serves
put_at_least_once_json_refused_example =
    put_at_least_once_json_refused server server-Serves unary 0 "a" ",11,"
      (record { id = 0; v = 2 }) 2 0 (at_version_2 "old") refl (omega arith)

abbrev put_op : ℕ → String → Operation
put_op version err = record {
  client_id = 0;
  input = record { op = 1; key = "a"; value = "x"; version = version };
  output = record { value = ""; version = 0; err = err };
}

abbrev two_puts : List Operation
two_puts = put_op 0 "OK" ∷ put_op 1 "ErrMaybe" ∷ put_op 1 "ErrVersion" ∷ []

two_puts-Accepts : Accepts init two_puts (record { value = "x"; version = 2 })
unfolding unfold_all
two_puts-Accepts = accepted refl (accepted refl (accepted refl nothing))

check_put_concurrent-Accepts_example :
    (ts' : Test Store) × (check_put_concurrent server unary 0 "a"
        (record { nok = 1; nmaybe = 0 } ∷ record { nok = 0; nmaybe = 1 } ∷ [])
        no_res
        false
        (at_version_2 ",1,")
      ≡ returns (record { nok = 1; nmaybe = 1 }, ts'))
unfolding unfold_all
check_put_concurrent-Accepts_example =
    check_put_concurrent-Accepts server unary 0 "a"
      (record { nok = 1; nmaybe = 0 } ∷ record { nok = 0; nmaybe = 1 } ∷ []) false
      (at_version_2 ",1,") two_puts (record { value = "x"; version = 2 }) ",1,"
      (record { id = 0; v = 1 }) (at_version_2 ",1,").clerk two_puts-Accepts (omega arith) refl refl
      (λ e. cc e) refl refl

abbrev appended : List EntryN
appended = record { id = 0; n = 0 } ∷ record { id = 1; n = 0 } ∷ record { id = 0; n = 2 } ∷ []

abbrev results : List ClntRes
results = record { nok = 2; nmaybe = 1 } ∷ record { nok = 1; nmaybe = 0 } ∷ []

check_appends-passes : check_appends appended 2 results 4 ≡ returns tt
unfolding unfold_all
check_appends-passes = refl

check_appends-lost :
    check_appends appended 2
      (record { nok = 3; nmaybe = 0 } ∷ record { nok = 1; nmaybe = 0 } ∷ [])
      4
    ≡ fatal
unfolding unfold_all
check_appends-lost = refl

check_appends_iff_example :
    (check_appends appended 2 results 4 ≡ returns tt) ↔ IsAppended appended results 4
check_appends_iff_example = check_appends_iff appended 2 results 4 (omega arith)
