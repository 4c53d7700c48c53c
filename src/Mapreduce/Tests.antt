-- ===== src/Mapreduce/Tests.antt =====
-- The word count and the index of two small files.
use Prim.Native.Char.{Char, code}
use mit.Base.{
  String, Bool, false, ◌&&◌, none, List, [], ◌∷◌, map, if◌then◌else◌, leb, nat_eq, string_eq,
  contains, count, All, ◌≡◌, refl, arith, inl, nat_beq_iff, inr, Bool-cases,
}
use mit.Base.Maps.{keys, insert}
use mit.Base.Exec.{returns, fatal}
use mit.Groups.Servers.{itoa}
use mit.Models.{before}
use mit.Models.Partition.{before-asym}
use mit.Mapreduce.{
  KeyValue, tally, IsOrdered, IsSort, sequential, line, word_map, word_reduce, index_map,
  index_reduce,
}
use mit.Mapreduce.Reduced.{IsIncreasing}
use mit.Mapreduce.Words.{readable, all_words, sequential-word_map}

abbrev is_small : Char → Bool
is_small c = leb 97 (code c) && leb (code c) 122

-- A sort by key, as an instance of what sort.Sort promises.
abbrev put_in : KeyValue → List KeyValue → List KeyValue
put_in x [] = x ∷ []
put_in x (y ∷ ys) = if before y.key x.key then y ∷ put_in x ys else x ∷ y ∷ ys

abbrev by_key : List KeyValue → List KeyValue
by_key [] = []
by_key (x ∷ xs) = put_in x (by_key xs)

tally-put_in :
    (p : KeyValue → Bool) (x : KeyValue) (ys : List KeyValue)
    → tally p (put_in x ys) ≡ tally p (x ∷ ys)
tally-put_in p x [] = refl
tally-put_in p x (y ∷ ys) = ground (arith, tally-put_in p x ys)

tally-by_key : (p : KeyValue → Bool) (xs : List KeyValue) → tally p (by_key xs) ≡ tally p xs
tally-by_key p [] = refl
tally-by_key p (x ∷ xs) = ground (arith, tally-put_in p x (by_key xs), tally-by_key p xs)

-- "not before" is transitive.
before_trans : (r s t : String) → before s r ≡ false → before t s ≡ false → before t r ≡ false
unfolding before
before_trans String.[] String.[] String.[] h g = refl
before_trans String.[] String.[] (String.◌∷◌ e t) h g = refl
before_trans String.[] (String.◌∷◌ d s) String.[] h g = refl
before_trans String.[] (String.◌∷◌ d s) (String.◌∷◌ e t) h g = refl
before_trans (String.◌∷◌ c r) String.[] t h g = cc h
before_trans (String.◌∷◌ c r) (String.◌∷◌ d s) String.[] h g = cc g
before_trans (String.◌∷◌ c r) (String.◌∷◌ d s) (String.◌∷◌ e t) h g = ground (
  arith,
  h,
  g,
  before_trans r s t,
  nat_beq_iff (code d) (code c),
  nat_beq_iff (code e) (code d),
  nat_beq_iff (code e) (code c),
)

behind_put_in :
    (k : String) (x : KeyValue) (ys : List KeyValue)
    → before x.key k ≡ false
    → All (λ z. before z.key k ≡ false) ys
    → All (λ z. before z.key k ≡ false) (put_in x ys)
behind_put_in k x [] h behind = (h, tt)
behind_put_in k x (y ∷ ys) h behind = elim (Bool-cases (before y.key x.key)) [
  | inl e ↦ rw e (behind.0, behind_put_in k x ys h behind.1)
  | inr e ↦ rw e (h, behind)
]

behind_all :
    (k j : String) (ys : List KeyValue)
    → before j k ≡ false
    → All (λ z. before z.key j ≡ false) ys
    → All (λ z. before z.key k ≡ false) ys
behind_all k j [] h behind = tt
behind_all k j (y ∷ ys) h behind = (before_trans k j y.key h behind.0, behind_all k j ys h behind.1)

put_in-IsOrdered : (x : KeyValue) (ys : List KeyValue) → IsOrdered ys → IsOrdered (put_in x ys)
put_in-IsOrdered x [] o = (tt, tt)
put_in-IsOrdered x (y ∷ ys) o = elim (Bool-cases (before y.key x.key)) [
  | inl e ↦
      rw e (behind_put_in y.key x ys (before-asym y.key x.key e) o.0, put_in-IsOrdered x ys o.1)
  | inr e ↦ rw e ((e, behind_all x.key y.key ys e o.0), o)
]

by_key-IsOrdered : (xs : List KeyValue) → IsOrdered (by_key xs)
by_key-IsOrdered [] = tt
by_key-IsOrdered (x ∷ xs) = put_in-IsOrdered x (by_key xs) (by_key-IsOrdered xs)

by_key-IsSort : IsSort by_key
by_key-IsSort = record { ordered = by_key-IsOrdered; same = tally-by_key }

abbrev two_files : List (String × String)
two_files = ("f", "the fox, the") ∷ ("g", "a fox") ∷ []

sequential-word_map_example :
    (ks : List String) × (sequential
        (word_map is_small)
        word_reduce
        by_key
        (readable is_small two_files)
      ≡ returns (map (λ w. line w (itoa (count w (all_words is_small two_files)))) ks))
    × IsIncreasing ks
    × ((w : String) → contains w ks ≡ contains w (all_words is_small two_files))
sequential-word_map_example = sequential-word_map is_small by_key two_files by_key-IsSort

word_count_runs :
    sequential (word_map is_small) word_reduce by_key (readable is_small two_files)
    ≡ returns ("a 1\n" ∷ "fox 2\n" ∷ "the 2\n" ∷ [])
unfolding sequential word_map word_reduce before
word_count_runs = refl

index_runs :
    sequential (index_map is_small keys) index_reduce by_key (readable is_small two_files)
    ≡ returns ("a 1 g\n" ∷ "fox 2 f,g\n" ∷ "the 1 f\n" ∷ [])
unfolding sequential index_map index_reduce before insert
index_runs = refl

unreadable : sequential (word_map is_small) word_reduce by_key (("f", none) ∷ []) ≡ fatal
unfolding sequential
unreadable = refl
