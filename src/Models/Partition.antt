-- ===== src/Models/Partition.antt =====
-- KvModel.Partition.
use mit.Base.{
  snoc-append, append_nil, String, Bool, true, false, ◌||◌, List, [], ◌∷◌, ◌++◌, map, if◌then◌else◌,
  or_else, ◌==◌, nat_eq, string_eq, contains, Distinct, nat_beq_iff, ◌≡◌, refl, sym, ◌∙◌, inl, inr,
  arith, Bool-cases,
}
use Prim.Native.Char.{code}
use mit.Base.Maps.{Map, keys, lookup, has, insert, lookup-insert, has-contains, Distinct-insert}
use mit.Models.{Operation, group, before, sort_in, sort_strings, partition}

-- A key's operations, in the order of the history.
unfoldable pub of_key : String → List Operation → List Operation
of_key k [] = []
of_key k (o ∷ ops) = if k == o.input.key then o ∷ of_key k ops else of_key k ops

abbrev pub some_of : List Operation → Bool
some_of [] = false
some_of (o ∷ ops) = true

group-lookup :
    (k : String) (history : List Operation) (m : Map String (List Operation))
    → or_else (lookup k (group history m)) [] ≡ or_else (lookup k m) [] ++ of_key k history
unfolding group of_key
group-lookup k [] m = sym (append_nil _)
group-lookup k (o ∷ history) m =
    let so_far = or_else (lookup o.input.key m) [] ++ o ∷ [] in
    ground (
      arith,
      group-lookup k history (insert o.input.key so_far m),
      lookup-insert o.input.key k so_far m,
      string_eq.beq_iff k o.input.key,
      snoc-append (or_else (lookup k m) []) o (of_key k history),
    )

group-has :
    (k : String) (history : List Operation) (m : Map String (List Operation))
    → has k (group history m) ≡ (has k m || some_of (of_key k history))
unfolding group of_key
group-has k [] m = ground arith
group-has k (o ∷ history) m =
    let so_far = or_else (lookup o.input.key m) [] ++ o ∷ [] in
    ground (
      arith,
      group-has k history (insert o.input.key so_far m),
      lookup-insert o.input.key k so_far m,
    )

Distinct-group :
    (history : List Operation) (m : Map String (List Operation))
    → Distinct (keys m)
    → Distinct (keys (group history m))
unfolding group
Distinct-group [] m d = d
Distinct-group (o ∷ history) m d =
    Distinct-group history _
      (Distinct-insert o.input.key (or_else (lookup o.input.key m) [] ++ o ∷ []) m d)

contains-sort_in :
    (k j : String) (xs : List String) → contains k (sort_in j xs) ≡ contains k (j ∷ xs)
unfolding sort_in contains
contains-sort_in k j [] = refl
contains-sort_in k j (x ∷ xs) = ground (arith, contains-sort_in k j xs)

contains-sort_strings :
    (k : String) (xs : List String) → contains k (sort_strings xs) ≡ contains k xs
unfolding sort_strings contains
contains-sort_strings k [] = refl
contains-sort_strings k (x ∷ xs) =
    ground (arith, contains-sort_in k x (sort_strings xs), contains-sort_strings k xs)

Distinct-sort_in :
    (j : String) (xs : List String) → contains j xs ≡ false → Distinct xs → Distinct (sort_in j xs)
unfolding sort_in contains
Distinct-sort_in j [] h d = (refl, tt)
Distinct-sort_in j (x ∷ xs) h d = elim (Bool-cases (before x j)) [
  | inr after ↦ rw after (h, d)
  | inl less ↦ rw less (
    ground (arith, contains-sort_in x j xs, string_eq.beq_iff x j, string_eq.beq_iff j x),
    Distinct-sort_in j xs (ground arith) d.1,
  )
]

Distinct-sort_strings : (xs : List String) → Distinct xs → Distinct (sort_strings xs)
unfolding sort_strings
Distinct-sort_strings [] d = tt
Distinct-sort_strings (x ∷ xs) d =
    Distinct-sort_in x (sort_strings xs) (contains-sort_strings x xs ∙ d.0)
      (Distinct-sort_strings xs d.1)

pub before-asym : (s t : String) → before s t ≡ true → before t s ≡ false
unfolding before
before-asym String.[] String.[] h = cc h
before-asym String.[] (String.◌∷◌ d t) h = refl
before-asym (String.◌∷◌ c s) String.[] h = cc h
before-asym (String.◌∷◌ c s) (String.◌∷◌ d t) h =
    ground (arith, before-asym s t, nat_beq_iff (code c) (code d), nat_beq_iff (code d) (code c))

-- No text stands before the one in front of it.
unfoldable pub IsSorted : List String → Type 0
IsSorted [] = Unit
IsSorted (x ∷ []) = Unit
IsSorted (x ∷ y ∷ ys) = (before y x ≡ false) × IsSorted (y ∷ ys)

sort_in-IsSorted : (k : String) (xs : List String) → IsSorted xs → IsSorted (sort_in k xs)
unfolding sort_in IsSorted
sort_in-IsSorted k [] s = tt
sort_in-IsSorted k (x ∷ []) s = elim (Bool-cases (before x k)) [
  | inl less ↦ rw less (before-asym x k less, tt)
  | inr after ↦ rw after (after, tt)
]
sort_in-IsSorted k (x ∷ y ∷ ys) s = elim (Bool-cases (before x k)) [
  | inr after ↦ rw after (after, s)
  | inl less ↦ rw less (elim (Bool-cases (before y k)) [
    | inl more ↦ let ih = sort_in-IsSorted k (y ∷ ys) s.1 in rw more (s.0, rw more at ih)
    | inr here ↦ rw here (before-asym x k less, (here, s.1))
  ])
]

sort_strings-IsSorted : (xs : List String) → IsSorted (sort_strings xs)
unfolding sort_strings IsSorted
sort_strings-IsSorted [] = tt
sort_strings-IsSorted (x ∷ xs) = sort_in-IsSorted x (sort_strings xs) (sort_strings-IsSorted xs)

pub record IsPartition (history : List Operation) (parts : List (List Operation)) : Type 0 where
  pub part_keys : List String
  pub distinct : Distinct part_keys
  pub ordered : IsSorted part_keys
  pub every : (k : String) → contains k part_keys ≡ some_of (of_key k history)
  pub parts_are : parts ≡ map (λ k. of_key k history) part_keys

-- Partition gives one part for each key that occurs, in the order of the keys; a part holds the
-- operations of its key in their order.
pub partition-IsPartition : (history : List Operation) → IsPartition history (partition history)
unfolding partition lookup
partition-IsPartition history = record {
  part_keys = sort_strings (keys (group history []));
  distinct = Distinct-sort_strings _ (Distinct-group history [] tt);
  ordered = sort_strings-IsSorted (keys (group history []));
  every = λ k.
      contains-sort_strings k (keys (group history []))
      ∙ (sym (has-contains k (group history [])) ∙ all k);
  parts_are = each (sort_strings (keys (group history [])));
}
  where
    all : (k : String) → has k (group history []) ≡ some_of (of_key k history)
    all k = group-has k history []

    each :
        (ks : List String)
        → map (λ k. or_else (lookup k (group history [])) []) ks ≡ map (λ k. of_key k history) ks
    each [] = refl
    each (k ∷ ks) = cc (group-lookup k history [], each ks)
