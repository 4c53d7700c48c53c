-- ===== src/Labgob/Tests.antt =====
-- A type that refers to itself, with a field in lower case, checked and decoded into.
use mit.Base.{
  ℕ, zero, Bool, true, false, ◌&&◌, none, List, [], ◌∷◌, nat_eq, contains, leb, ◌≡◌, refl, ◌↔◌,
  arith, suc, ◌+◌,
}
use mit.Base.Int.{pos}
use mit.Base.Exec.{returns, panics}
use mit.Labgob.{
  TypeDesc, struct, ptr, map_of, other, Globals, lower_case_field, non_default, Value, scalar,
  record_of, ptr_to, nil, cons, int, string, first_rune, check_type, check_default1, Gob, Access,
  path_to, access_field,
}
use mit.Labgob.Parts.{parts, lower_of}
use mit.Labgob.Checking.{IsClosed, IsValid, IsChecked, check_type-IsChecked}
use mit.Labgob.Defaults.{
  leaves, within, any_read_only, IsWarned, check_default1-IsWarned, check_default1_panics,
}
use mit.Labgob.Counting.{
  Call, encodes, decodes, run_calls, defaults, IsUsed, IsCounted, AreFine, run_calls-IsCounted,
  run_calls-clean_iff,
}

abbrev is_upper : ℕ → Bool
is_upper r = leb b'A' r && leb r b'Z'

-- type 0 is struct { Next *0; id int }, 1 is *0, 2 is int, 3 is map[int]0, 4 is struct { Id int }.
abbrev types : ℕ → TypeDesc
types zero =
    struct (record { name = "Next"; type_id = 1 } ∷ record { name = "id"; type_id = 2 } ∷ [])
types (suc zero) = ptr 0
types (suc (suc zero)) = other
types (suc (suc (suc zero))) = map_of 2 0
types (suc (suc (suc (suc n)))) = struct (record { name = "Id"; type_id = 2 } ∷ [])

abbrev empty_globals : Globals
empty_globals = record { error_count = 0; checked = []; printed = [] }

abbrev checked_globals : Globals
checked_globals = record {
  error_count = 1;
  checked = 2 ∷ 1 ∷ 0 ∷ 3 ∷ [];
  printed = lower_case_field "id" 0 ∷ [];
}

check_type_runs : check_type types is_upper 6 3 empty_globals ≡ returns checked_globals
unfolding check_type contains first_rune
check_type_runs = refl

types-IsClosed : IsClosed types is_upper 5
unfolding parts
types-IsClosed zero lt = omega arith
types-IsClosed (suc zero) lt = omega arith
types-IsClosed (suc (suc zero)) lt = tt
types-IsClosed (suc (suc (suc zero))) lt = omega arith
types-IsClosed (suc (suc (suc (suc n)))) lt = omega arith

empty_globals-IsValid : IsValid types is_upper empty_globals
unfolding contains
empty_globals-IsValid = record { complete = λ u v m part. absurd (ground arith); distinct = tt }

check_type-IsChecked_example :
    (g' : Globals) × (check_type types is_upper 6 3 empty_globals ≡ returns g')
    × IsChecked types is_upper 3 empty_globals g'
check_type-IsChecked_example =
    check_type-IsChecked types is_upper 5 3 empty_globals types-IsClosed (omega arith)
      empty_globals-IsValid

abbrev start : Access
start = record { sticky = false; embed = false }

-- &struct { Id int; Next *struct { Name string; In *int } }, with 7, "x" and 1: the last one is too
-- deep to be looked at.
abbrev reply : Value
reply = ptr_to (
    record_of (
      cons "Id" false (scalar "int" (int (pos 7))) (
        cons "Name" false (scalar "string" (string "x"))
          (cons "Next" false (ptr_to (scalar "int" (int (pos 1)))) nil))))

abbrev warned : Globals
warned = record { error_count = 2; checked = []; printed = non_default "Id" ∷ [] }

check_default1_runs : check_default1 is_upper reply 1 "" start empty_globals ≡ returns warned
unfolding check_default1 first_rune
check_default1_runs = refl

reply_open : any_read_only (within (leaves is_upper reply 1 "" start)) ≡ false
unfolding any_read_only within leaves first_rune path_to access_field
reply_open = refl

check_default1-IsWarned_example :
    (g' : Globals) × (check_default1 is_upper reply 1 "" start empty_globals ≡ returns g')
    × IsWarned is_upper (within (leaves is_upper reply 1 "" start)) empty_globals g'
check_default1-IsWarned_example =
    check_default1-IsWarned is_upper reply 1 "" start empty_globals reply_open

-- &struct { id int }, with 0
abbrev hidden_reply : Value
hidden_reply = ptr_to (record_of (cons "id" false (scalar "int" (int (pos 0))) nil))

hidden_reply_hidden : any_read_only (within (leaves is_upper hidden_reply 1 "" start)) ≡ true
unfolding any_read_only within leaves first_rune path_to access_field
hidden_reply_hidden = refl

check_default1_panics_example :
    check_default1 is_upper hidden_reply 1 "" start empty_globals ≡ panics
check_default1_panics_example =
    check_default1_panics is_upper hidden_reply 1 "" start empty_globals hidden_reply_hidden

-- An encoder that counts its calls.
abbrev counting : Gob ℕ
counting = record {
  encode = λ e n. returns (n + 1, none);
  decode = λ e n. returns (n + 1, none);
  register = λ e n. returns (n + 1);
  register_name = λ name e n. returns (n + 1);
}

abbrev calls : List (Call ℕ)
calls = encodes 4 reply 0 ∷ decodes 1 reply 1 ∷ []

calls-AreFine : AreFine counting types is_upper 5 calls
unfolding any_read_only within leaves first_rune path_to access_field
calls-AreFine = (omega arith, refl, ((1, none), refl), (omega arith, refl, ((2, none), refl), tt))

run_calls-IsCounted_example :
    (g' : Globals) × (run_calls counting types is_upper 6 calls empty_globals ≡ returns g')
    × IsCounted counting types is_upper calls empty_globals g'
run_calls-IsCounted_example =
    run_calls-IsCounted counting types is_upper 5 calls empty_globals types-IsClosed calls-AreFine
      empty_globals-IsValid

run_calls-clean_iff_example :
    (g' : Globals) × (run_calls counting types is_upper 6 calls empty_globals ≡ returns g')
    × ((g'.error_count ≡ 0) ↔ (
        ((u : ℕ) → IsUsed counting types is_upper calls u → lower_of types is_upper (types u) ≡ 0)
        × (defaults counting types is_upper calls ≡ 0)))
run_calls-clean_iff_example =
    run_calls-clean_iff counting types is_upper 5 calls types-IsClosed calls-AreFine
