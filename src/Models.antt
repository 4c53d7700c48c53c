-- ===== src/Models.antt =====
-- src/models1/kv.go: the sequential model of one key that the linearizability checker is run with.
-- `op` is the pattern of a uint8 and a version that of a uint64. DescribeOperation, a text for
-- people, is left out.
pub mod Versions
pub mod Partition
mod Tests
use Prim.Native.Char.{code}
use mit.Base.{
  ℕ, ◌+◌, ◌%◌, ◌^◌, String, Bool, true, false, ◌||◌, Option, none, some, List, [], ◌∷◌, ◌++◌, map,
  if◌then◌else◌, or_else, ltb, ◌==◌, nat_eq, string_eq,
}
use mit.Base.Maps.{Map, keys, lookup, insert}
use mit.Base.Exec.{Exec, returns, panics, ◌>>=◌}

-- 0 => get, 1 => put
pub record KvInput : Type 0 where
  pub op : ℕ
  pub key : String
  pub value : String
  pub version : ℕ

pub record KvOutput : Type 0 where
  pub value : String
  pub version : ℕ
  pub err : String

pub record KvState : Type 0 where
  pub value : String
  pub version : ℕ

-- porcupine.Operation; the two times, which only the checker reads, are left out.
pub record Operation : Type 0 where
  pub client_id : ℕ
  pub input : KvInput
  pub output : KvOutput

-- `m[key] = append(m[key], v)`
unfoldable pub group : List Operation → Map String (List Operation) → Map String (List Operation)
group [] m = m
group (v ∷ history) m =
    group history (insert v.input.key (or_else (lookup v.input.key m) [] ++ v ∷ []) m)

-- `<` on texts, by their characters
unfoldable pub before : String → String → Bool
before String.[] String.[] = false
before String.[] (String.◌∷◌ d t) = true
before (String.◌∷◌ c s) String.[] = false
before (String.◌∷◌ c s) (String.◌∷◌ d t) =
    let rest = before s t in
    if ltb (code c) (code d) then true else if code c == code d then rest else false

-- sort.Strings
unfoldable pub sort_in : String → List String → List String
sort_in k [] = k ∷ []
sort_in k (x ∷ xs) = if before x k then x ∷ sort_in k xs else k ∷ x ∷ xs

unfoldable pub sort_strings : List String → List String
unfolding sort_in before
sort_strings [] = []
sort_strings (k ∷ ks) = sort_in k (sort_strings ks)

unfoldable pub partition : List Operation → List (List Operation)
unfolding group sort_strings
partition history =
    let m = group history [] in map (λ k. or_else (lookup k m) []) (sort_strings (keys m))

unfoldable pub init : KvState
init = record { value = ""; version = 0 }

-- A state of the model: a KvState, or the text "<invalid>" behind an unknown operation.
pub data State : Type 0 where
  kv_state : KvState → State
  invalid : State

-- Step behind its type assertions.
unfoldable pub step_kv : KvState → KvInput → KvOutput → Bool × State
step_kv st inp out =
    if inp.op == 0
    then (out.value == st.value, kv_state st)
    else if inp.op == 1
    then (if st.version == inp.version
        then (
          out.err == "OK" || out.err == "ErrMaybe",
          kv_state (record { value = inp.value; version = (st.version + 1) % 2 ^ 64 }),
        )
        else (out.err == "ErrVersion" || out.err == "ErrMaybe", kv_state st))
    else (false, invalid)

unfoldable pub step : State → KvInput → KvOutput → Exec (Bool × State)
unfolding step_kv
step (kv_state st) inp out = returns (step_kv st inp out)
step invalid inp out = panics
