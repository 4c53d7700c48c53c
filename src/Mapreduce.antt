-- ===== src/Mapreduce.antt =====
-- src/main/mrsequential.go with the applications src/mrapps/wc.go and src/mrapps/indexer.go. The
-- files are given with their contents, none for one that cannot be read. sort.Sort is an argument,
-- since it leaves the order of equal keys open, and so are unicode.IsLetter and the order of a map.
pub mod Reduced
pub mod Words
mod Tests
use Prim.Native.Char.{Char}
use mit.Base.{
  ℕ, zero, suc, String, Bool, true, false, not, Option, none, some, List, [], ◌∷◌, ◌++◌, map,
  if◌then◌else◌, ◌==◌, nat_eq, string_eq, length, All, ◌≡◌,
}
use mit.Base.Maps.{Map, insert}
use mit.Base.Text.{join}
use mit.Base.Exec.{Exec, returns, fatal, diverges, ◌>>=◌}
use mit.Groups.Servers.{itoa}
use mit.Models.{before, sort_strings}

-- mr.KeyValue
pub record KeyValue : Type 0 where
  pub key : String
  pub value : String

-- The two functions of an application.
abbrev pub Mapf : Type 0
Mapf = String → String → List KeyValue

abbrev pub Reducef : Type 0
Reducef = String → List String → String

-- What sort.Sort(ByKey(…)) promises: no entry is less than one in front of it, and the entries are
-- the same, so that each test holds of as many.
abbrev pub IsOrdered : List KeyValue → Type 0
IsOrdered [] = Unit
IsOrdered (x ∷ xs) = All (λ y. before y.key x.key ≡ false) xs × IsOrdered xs

abbrev pub tally : (KeyValue → Bool) → List KeyValue → ℕ
tally p [] = 0
tally p (x ∷ xs) = if p x then suc (tally p xs) else tally p xs

pub record IsSort (sort : List KeyValue → List KeyValue) : Type 0 where
  pub ordered : (xs : List KeyValue) → IsOrdered (sort xs)
  pub same : (p : KeyValue → Bool) (xs : List KeyValue) → tally p (sort xs) ≡ tally p xs

-- The loop over the input files.
unfoldable pub collect : Mapf → List (String × Option String) → Exec (List KeyValue)
collect mapf [] = returns []
collect mapf ((filename, none) ∷ files) = fatal
collect mapf ((filename, some content) ∷ files) =
    collect mapf files >>= λ (more : List KeyValue). returns (mapf filename content ++ more)

-- The loops over `j` and `k`: the values of the key, and what follows them.
unfoldable pub same_key : String → List KeyValue → List String × List KeyValue
same_key k [] = ([], [])
same_key k (kv ∷ rest) =
    let r = same_key k rest in if kv.key == k then (kv.value ∷ r.0, r.1) else ([], kv ∷ rest)

-- "%v %v\n"
abbrev pub line : String → String → String
line key output = join key (join " " (join output "\n"))

-- The loop over `i`, on fuel.
unfoldable pub reduce_loop : Reducef → ℕ → List KeyValue → Exec (List String)
unfolding same_key
reduce_loop reducef fuel [] = returns []
reduce_loop reducef zero (kv ∷ rest) = diverges
reduce_loop reducef (suc fuel) (kv ∷ rest) =
    let (values, more) = same_key kv.key rest in
    let output = reducef kv.key (kv.value ∷ values) in
    reduce_loop reducef fuel more >>= λ (ls : List String). returns (line kv.key output ∷ ls)

-- main, with the lines of mr-out-0 as its result.
unfoldable pub sequential :
    Mapf
    → Reducef
    → (List KeyValue → List KeyValue)
    → List (String × Option String)
    → Exec (List String)
unfolding collect reduce_loop
sequential mapf reducef sort files = collect mapf files >>= λ (kva : List KeyValue).
    let intermediate = sort kva in reduce_loop reducef (length intermediate) intermediate

-- strings.FieldsFunc, with the field that is being read.
unfoldable pub fields_from : (Char → Bool) → String → String → List String
unfolding join
fields_from sep field String.[] = if field == "" then [] else field ∷ []
fields_from sep field (String.◌∷◌ c s) =
    let next = fields_from sep "" s in
    let longer = fields_from sep (join field (String.◌∷◌ c "")) s in
    if sep c then (if field == "" then next else field ∷ next) else longer

unfoldable pub words_of : (Char → Bool) → String → List String
unfolding fields_from
words_of is_letter contents = fields_from (λ c. not (is_letter c)) "" contents

-- wc.go
unfoldable pub word_map : (Char → Bool) → Mapf
unfolding words_of
word_map is_letter filename contents =
    map (λ w. record { key = w; value = "1" }) (words_of is_letter contents)

unfoldable pub word_reduce : Reducef
unfolding itoa
word_reduce key values = itoa (length values)

-- indexer.go: `order` is the order in which the map is ranged over.
unfoldable pub word_set : List String → Map String Bool → Map String Bool
word_set [] m = m
word_set (w ∷ words) m = word_set words (insert w true m)

unfoldable pub index_map : (Char → Bool) → (Map String Bool → List String) → Mapf
unfolding words_of word_set
index_map is_letter order document value =
    map (λ w. record { key = w; value = document }) (order (word_set (words_of is_letter value) []))

-- strings.Join
unfoldable pub join_with : String → List String → String
join_with sep [] = ""
join_with sep (x ∷ []) = x
join_with sep (x ∷ y ∷ ys) = join x (join sep (join_with sep (y ∷ ys)))

unfoldable pub index_reduce : Reducef
unfolding itoa sort_strings join_with
index_reduce key values =
    join (itoa (length values)) (join " " (join_with "," (sort_strings values)))
