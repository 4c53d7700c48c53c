-- ===== src/Labgob.antt =====
-- src/labgob/labgob.go: the wrapper around encoding/gob that warns of fields which gob leaves out.
-- A reflect.Type is the number of a type in `types`, so that a type may refer to itself. `is_upper`
-- is unicode.IsUpper. A call is one step: other goroutines are not interleaved.
pub mod Parts
pub mod Checking
pub mod Defaults
pub mod Counting
mod Tests
use Prim.Native.Char.{code}
use mit.Base.Text.{join}
use mit.Base.{
  ℕ, zero, suc, ◌+◌, ◌^◌, String, Bool, true, false, not, ◌&&◌, ◌||◌, Option, none, some, List, [],
  ◌∷◌, ◌++◌, if◌then◌else◌, ltb, ◌==◌, nat_eq, nat_beq, string_eq, contains,
}
use mit.Base.Int.{ℤ, pos, int_eq}
use mit.Base.Exec.{Exec, returns, panics, diverges, ◌>>=◌}

pub record Field : Type 0 where
  pub name : String
  pub type_id : ℕ

-- What checkType reads of a type. `other` has the kinds without a case of their own.
pub data TypeDesc : Type 0 where
  struct : List Field → TypeDesc
  slice array ptr : ℕ → TypeDesc
  map_of : (key elem : ℕ) → TypeDesc
  other : TypeDesc

-- A line that is printed: the field and its type, or the name of a variable or field.
pub data Line : Type 0 where
  lower_case_field : (field : String) (owner : ℕ) → Line
  non_default : String → Line

-- The package's variables, and what it has printed. Only types that are true in `checked` are in it.
pub record Globals : Type 0 where
  pub error_count : ℕ
  pub checked : List ℕ
  pub printed : List Line

-- utf8.DecodeRuneInString: RuneError of an empty text
unfoldable pub first_rune : String → ℕ
first_rune String.[] = 0xfffd
first_rune (String.◌∷◌ c s) = code c

-- A value, as far as checkDefault1 looks into it. A scalar carries the name of its type; a float is
-- its 64-bit pattern. `opaque` has the kinds without a case of their own.
pub data Scalar : Type 0 where
  bool : Bool → Scalar
  int : ℤ → Scalar
  uint float : ℕ → Scalar
  string : String → Scalar

mutual
  pub data Value : Type 0 where
    scalar : (type_name : String) → Scalar → Value
    record_of : Values → Value
    nil_ptr opaque : Value
    ptr_to : Value → Value

  pub data Values : Type 0 where
    nil : Values
    cons : (name : String) → (embedded : Bool) → Value → Values → Values

-- reflect.DeepEqual with the zero value: both zeros of a float are equal
unfoldable pub is_zero : Scalar → Bool
is_zero (bool b) = not b
is_zero (int n) = n == pos 0
is_zero (uint n) = n == 0
is_zero (float bits) = if bits == 0 then true else bits == 2 ^ 63
is_zero (string s) = s == ""

unfoldable pub warn_default : String → String → Globals → Globals
warn_default name type_name g =
    let what = if name == "" then type_name else name in
    record g {
      printed = if ltb g.error_count 1 then g.printed ++ non_default what ∷ [] else g.printed;
      error_count = g.error_count + 1;
    }

-- name1 of a field, below `name`
unfoldable pub path_to : String → String → String
unfolding join
path_to name field = if name == "" then field else join (join name ".") field

-- What reflect keeps of the way to a value: through an unexported field (which all below inherits),
-- or just now through an unexported embedded one. Value.Interface() panics at either.
pub record Access : Type 0 where
  pub sticky : Bool
  pub embed : Bool

abbrev pub is_read_only : Access → Bool
is_read_only a = a.sticky || a.embed

module _ (is_upper : ℕ → Bool) where
  -- Value.Field(i)
  unfoldable pub access_field : String → Bool → Access → Access
  unfolding first_rune
  access_field name embedded a =
      let hidden = not (is_upper (first_rune name)) in
      record { sticky = a.sticky || hidden && not embedded; embed = hidden && embedded }

  unfoldable mutual
    unfolding is_zero warn_default path_to access_field

    pub check_default1 : Value → ℕ → String → Access → Globals → Exec Globals
    check_default1 (scalar type_name s) depth name a g =
        if ltb 3 depth
        then returns g
        else if is_read_only a
        then panics
        else if is_zero s
        then returns g
        else returns (warn_default name type_name g)
    check_default1 (record_of fs) depth name a g =
        let inside = check_fields1 fs depth name a g in if ltb 3 depth then returns g else inside
    check_default1 nil_ptr depth name a g = returns g
    check_default1 opaque depth name a g = returns g
    check_default1 (ptr_to v) depth name a g =
        let inside = check_default1 v (depth + 1) name a g in
        if ltb 3 depth then returns g else inside

    -- The loop over the fields of a struct.
    pub check_fields1 : Values → ℕ → String → Access → Globals → Exec Globals
    check_fields1 nil depth name a g = returns g
    check_fields1 (cons field embedded v fs) depth name a g =
        check_default1 v (depth + 1) (path_to name field) (access_field field embedded a) g
        >>= check_fields1 fs depth name a

-- An `interface{}`: nil, or a value with its type.
abbrev pub Interface : Type 0
Interface = Option (ℕ × Value)

unfoldable pub check_default : (ℕ → Bool) → Interface → Globals → Exec Globals
unfolding check_default1
check_default is_upper none g = returns g
check_default is_upper (some (t, v)) g =
    check_default1 is_upper v 1 "" (record { sticky = false; embed = false }) g

module _ (types : ℕ → TypeDesc) (is_upper : ℕ → Bool) where
  unfoldable pub complain : ℕ → Field → Globals → Globals
  unfolding first_rune
  complain t f g = if is_upper (first_rune f.name) then g else record g {
    error_count = g.error_count + 1;
    printed = g.printed ++ lower_case_field f.name t ∷ [];
  }

  -- The loop over the fields of type `t`; `check` is checkType.
  unfoldable pub check_fields :
      (check : ℕ → Globals → Exec Globals) → ℕ → List Field → Globals → Exec Globals
  unfolding complain
  check_fields check t [] g = returns g
  check_fields check t (f ∷ fs) g = check f.type_id (complain t f g) >>= check_fields check t fs

  -- The switch of checkType.
  unfoldable pub check_parts :
      (check : ℕ → Globals → Exec Globals) → ℕ → TypeDesc → Globals → Exec Globals
  unfolding check_fields
  check_parts check t (struct fs) g = check_fields check t fs g
  check_parts check t (slice e) g = check e g
  check_parts check t (array e) g = check e g
  check_parts check t (ptr e) g = check e g
  check_parts check t (map_of key e) g = check e g >>= check key
  check_parts check t other g = returns g

  unfoldable pub check_type : ℕ → ℕ → Globals → Exec Globals
  unfolding check_parts contains
  check_type zero t g = diverges
  check_type (suc fuel) t g =
      let inside =
        check_parts (check_type fuel) t (types t) (record g { checked = t ∷ g.checked }) in
      if contains t g.checked then returns g else inside

  -- checkValue: a method call on the nil reflect.Type of a nil interface panics.
  unfoldable pub check_value : ℕ → Interface → Globals → Exec Globals
  unfolding check_type
  check_value fuel none g = panics
  check_value fuel (some (t, v)) g = check_type fuel t g

-- encoding/gob, over the state `G` of an encoder, a decoder or the registry; its results have an
-- error's text. Encode panics at a nil pointer, and the registration of a conflicting name panics.
pub record Gob (G : Type 0) : Type 0 where
  pub encode : Interface → G → Exec (G × Option String)
  pub decode : Interface → G → Exec (G × Option String)
  pub register : Interface → G → Exec G
  pub register_name : String → Interface → G → Exec G

module _ {G : Type 0} (gob : Gob G) (types : ℕ → TypeDesc) (is_upper : ℕ → Bool) where
  unfoldable pub encode : ℕ → Interface → Globals → G → Exec (Globals × G × Option String)
  unfolding check_value
  encode fuel e g state = check_value types is_upper fuel e g >>= λ (g1 : Globals).
      gob.encode e state >>= λ (r : G × Option String). returns (g1, r.0, r.1)

  unfoldable pub decode : ℕ → Interface → Globals → G → Exec (Globals × G × Option String)
  unfolding check_value check_default
  decode fuel e g state = check_value types is_upper fuel e g >>= λ (g1 : Globals).
      check_default is_upper e g1 >>= λ (g2 : Globals).
      gob.decode e state >>= λ (r : G × Option String). returns (g2, r.0, r.1)

  unfoldable pub register_name : ℕ → String → Interface → Globals → G → Exec (Globals × G)
  unfolding check_value
  register_name fuel name value g state =
      check_value types is_upper fuel value g >>= λ (g1 : Globals).
      gob.register_name name value state >>= λ (state1 : G). returns (g1, state1)

  unfoldable pub register : ℕ → Interface → Globals → G → Exec (Globals × G)
  unfolding check_value
  register fuel value g state = check_value types is_upper fuel value g >>= λ (g1 : Globals).
      gob.register value state >>= λ (state1 : G). returns (g1, state1)
