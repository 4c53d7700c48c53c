-- ===== src/Mapreduce/Words.antt =====
-- mrsequential with wc.go: how often each word stands in the files.
use Prim.Native.Char.{Char}
use mit.Base.{
  ℕ, ◌+◌, String, Bool, Option, some, List, [], ◌∷◌, ◌++◌, map, ◌==◌, nat_eq, string_eq, ltb,
  length, contains, count, ◌≡◌, refl, sym, ap, ◌∙◌, arith, fun_ext,
}
use mit.Base.Exec.{returns}
use mit.Groups.Servers.{itoa}
use mit.Mapreduce.{
  KeyValue, tally, IsSort, collect, line, sequential, words_of, word_map, word_reduce,
}
use mit.Mapreduce.Reduced.{values_of, has_key, IsIncreasing, reduce_loop_returns}

abbrev is_key : String → KeyValue → Bool
is_key k x = x.key == k

length-values_of : (k : String) (xs : List KeyValue) → length (values_of k xs) ≡ tally (is_key k) xs
length-values_of k [] = refl
length-values_of k (x ∷ xs) = ground (arith, length-values_of k xs)

has_key-tally : (k : String) (xs : List KeyValue) → has_key k xs ≡ ltb 0 (tally (is_key k) xs)
has_key-tally k [] = ground arith
has_key-tally k (x ∷ xs) = ground (arith, has_key-tally k xs)

tally-append :
    (p : KeyValue → Bool) (xs ys : List KeyValue) → tally p (xs ++ ys) ≡ tally p xs + tally p ys
tally-append p [] ys = omega arith
tally-append p (x ∷ xs) ys = ground (arith, tally-append p xs ys)

tally-words :
    (w : String) (ws : List String)
    → tally (is_key w) (map (λ v. record { key = v; value = "1" }) ws) ≡ count w ws
unfolding count
tally-words w [] = refl
tally-words w (v ∷ ws) =
    ground (arith, tally-words w ws, string_eq.beq_iff w v, string_eq.beq_iff v w)

count-append : (w : String) (xs ys : List String) → count w (xs ++ ys) ≡ count w xs + count w ys
unfolding count
count-append w [] ys = omega arith
count-append w (x ∷ xs) ys = ground (arith, count-append w xs ys)

contains-count : (w : String) (ws : List String) → contains w ws ≡ ltb 0 (count w ws)
unfolding contains count
contains-count w [] = ground arith
contains-count w (v ∷ ws) = ground (arith, contains-count w ws)

module _ (is_letter : Char → Bool) where
  abbrev pub readable : List (String × String) → List (String × Option String)
  readable [] = []
  readable ((filename, content) ∷ files) = (filename, some content) ∷ readable files

  -- The words of all files, one after the other.
  abbrev pub all_words : List (String × String) → List String
  all_words [] = []
  all_words ((filename, content) ∷ files) = words_of is_letter content ++ all_words files

  collect_returns :
      (files : List (String × String))
      → (kva : List KeyValue) × (collect (word_map is_letter) (readable files) ≡ returns kva)
        × ((w : String) → tally (is_key w) kva ≡ count w (all_words files))
  unfolding collect word_map count
  collect_returns [] = ([], refl, λ w. refl)
  collect_returns ((filename, content) ∷ files) =
      let (kva, ran, counts) = collect_returns files in
      let here : List KeyValue =
        map (λ w. record { key = w; value = "1" }) (words_of is_letter content) in
      (
        here ++ kva,
        ground (arith, ran),
        λ w. ground (
          arith,
          tally-append (is_key w) here kva,
          tally-words w (words_of is_letter content),
          counts w,
          count-append w (words_of is_letter content) (all_words files),
        ),
      )

  -- The sequential word count of files that can be read returns, whichever sort it uses: its output
  -- has one line for each word that stands in the files, in the order of the words, and the line has
  -- the number of times that the word stands there.
  pub sequential-word_map :
      (sort : List KeyValue → List KeyValue) (files : List (String × String))
      → IsSort sort
      → (ks : List String) × (sequential (word_map is_letter) word_reduce sort (readable files)
          ≡ returns (map (λ w. line w (itoa (count w (all_words files)))) ks))
        × IsIncreasing ks
        × ((w : String) → contains w ks ≡ contains w (all_words files))
  unfolding sequential word_reduce
  sequential-word_map sort files is =
      let (kva, collected, counts) = collect_returns files in
      let xs = sort kva in
      let (ks, ran, up, keys) =
        reduce_loop_returns word_reduce (length xs) xs (omega arith) (is.ordered kva) in
      let times : (w : String) → tally (is_key w) xs ≡ count w (all_words files) =
        λ w. is.same (is_key w) kva ∙ counts w in
      let lines : (w : String)
          → line w (itoa (length (values_of w xs))) ≡ line w (itoa (count w (all_words files))) =
        λ w. ap (λ (n : ℕ). line w (itoa n)) (length-values_of w xs ∙ times w) in
      (
        ks,
        ground (arith, collected, ran, ap (λ f. map f ks) (fun_ext lines)),
        up,
        λ w.
            keys w
            ∙ has_key-tally w xs
            ∙ ap (ltb 0) (times w)
            ∙ sym (contains-count w (all_words files)),
      )
