-- ===== src/Mapreduce/Reduced.antt =====
-- The loop that calls Reduce.
use Prim.Native.Char.{code}
use text.Mathlib.TextEquality.{Char-path}
use mit.Base.{
  ℕ, zero, suc, ◌≤◌, String, Bool, true, false, ◌||◌, List, [], ◌∷◌, map, if◌then◌else◌, ◌==◌,
  nat_eq, string_eq, nat_beq_iff, length, contains, All, ◌≡◌, refl, sym, subst, ap, ◌∙◌, inl, inr,
  arith, Bool-cases,
}
use mit.Base.Exec.{returns}
use mit.Models.{before}
use mit.Mapreduce.{KeyValue, Reducef, IsOrdered, same_key, line, reduce_loop}

abbrev pub values_of : String → List KeyValue → List String
values_of k [] = []
values_of k (x ∷ xs) = if x.key == k then x.value ∷ values_of k xs else values_of k xs

abbrev pub has_key : String → List KeyValue → Bool
has_key k [] = false
has_key k (x ∷ xs) = x.key == k || has_key k xs

-- Each text stands before the ones behind it.
abbrev pub IsIncreasing : List String → Type 0
IsIncreasing [] = Unit
IsIncreasing (k ∷ ks) = All (λ j. before j k ≡ false) ks × (contains k ks ≡ false) × IsIncreasing ks

before-antisym : (s t : String) → before s t ≡ false → before t s ≡ false → s ≡ t
unfolding before
before-antisym String.[] String.[] h g = refl
before-antisym String.[] (String.◌∷◌ d t) h g = cc h
before-antisym (String.◌∷◌ c s) String.[] h g = cc g
before-antisym (String.◌∷◌ c s) (String.◌∷◌ d t) h g =
    let codes : code c ≡ code d = ground (arith, h, g) in
    let heads : c ≡ d = Char-path c d codes in
    let tails : s ≡ t =
      before-antisym s t (ground (arith, h, codes, nat_beq_iff (code c) (code d)))
        (ground (arith, g, codes, nat_beq_iff (code d) (code c))) in
    cc (heads, tails)

-- A key that is less than `x` is not behind `x`.
has_key-behind :
    (k x : String) (zs : List KeyValue)
    → All (λ z. before z.key x ≡ false) zs
    → before x k ≡ false
    → (x == k) ≡ false
    → has_key k zs ≡ false
has_key-behind k x [] behind h ne = refl
has_key-behind k x (z ∷ zs) behind h ne = elim (Bool-cases (z.key == k)) [
  | inr e ↦ rw e (has_key-behind k x zs behind.1 h ne)
  | inl e ↦
      let is : z.key ≡ k = (string_eq.beq_iff z.key k).0 e in
      let after : before k x ≡ false = ap (λ (s : String). before s x) (sym is) ∙ behind.0 in
      let same : (x == k) ≡ true = (string_eq.beq_iff x k).1 (before-antisym x k h after) in
      absurd (cc (same, ne))
]

values_of-none : (k : String) (xs : List KeyValue) → has_key k xs ≡ false → values_of k xs ≡ []
values_of-none k [] h = refl
values_of-none k (x ∷ xs) h = ground (arith, values_of-none k xs, h)

-- What the inner loop takes off the front of the sorted entries.
record IsTaken (k : String) (rest : List KeyValue) (values : List String) (more : List KeyValue)
    : Type 0 where
  all_values : values ≡ values_of k rest
  none_left : has_key k more ≡ false
  same_values : (j : String) → (j == k) ≡ false → values_of j more ≡ values_of j rest
  same_keys : (j : String) → (j == k) ≡ false → has_key j more ≡ has_key j rest
  ordered : IsOrdered more
  behind : All (λ z. before z.key k ≡ false) more
  shorter : length more ≤ length rest

same_key-IsTaken :
    (k : String) (rest : List KeyValue)
    → All (λ z. before z.key k ≡ false) rest
    → IsOrdered rest
    → IsTaken k rest (same_key k rest).0 (same_key k rest).1
unfolding same_key
same_key-IsTaken k [] behind o = record {
  all_values = refl;
  none_left = refl;
  same_values = λ j ne. refl;
  same_keys = λ j ne. refl;
  ordered = tt;
  behind = tt;
  shorter = omega arith;
}
same_key-IsTaken k (x ∷ rest) behind o = elim (Bool-cases (x.key == k)) [
  | inl e ↦
      let t = same_key-IsTaken k rest behind.1 o.1 in
      let r = same_key k rest in
      let step : same_key k (x ∷ rest) ≡ (x.value ∷ r.0, r.1) = ground (arith, e) in
      subst (λ (q : List String × List KeyValue). IsTaken k (x ∷ rest) q.0 q.1) (sym step)
        (record {
          all_values = ground (arith, t.all_values, e);
          none_left = t.none_left;
          same_values = λ j ne. ground (
            arith,
            t.same_values j ne,
            string_eq.beq_iff x.key j,
            string_eq.beq_iff x.key k,
            string_eq.beq_iff j k,
            e,
          );
          same_keys = λ j ne. ground (
            arith,
            t.same_keys j ne,
            string_eq.beq_iff x.key j,
            string_eq.beq_iff x.key k,
            string_eq.beq_iff j k,
            e,
          );
          ordered = t.ordered;
          behind = t.behind;
          shorter = omega (arith, t.shorter);
        })
  | inr e ↦
      let gone : has_key k rest ≡ false = has_key-behind k x.key rest o.0 behind.0 e in
      let step : same_key k (x ∷ rest) ≡ ([], x ∷ rest) = ground (arith, e) in
      subst (λ (q : List String × List KeyValue). IsTaken k (x ∷ rest) q.0 q.1) (sym step)
        (record {
          all_values = ground (arith, values_of-none k rest gone, e);
          none_left = ground (arith, gone, e);
          same_values = λ j ne. refl;
          same_keys = λ j ne. refl;
          ordered = o;
          behind = behind;
          shorter = omega arith;
        })
]

All-keys :
    (k j : String) (xs : List KeyValue)
    → All (λ z. before z.key k ≡ false) xs
    → has_key j xs ≡ true
    → before j k ≡ false
All-keys k j [] behind h = cc h
All-keys k j (x ∷ xs) behind h = elim (Bool-cases (x.key == j)) [
  | inl e ↦ ap (λ (s : String). before s k) (sym ((string_eq.beq_iff x.key j).0 e)) ∙ behind.0
  | inr e ↦ All-keys k j xs behind.1 (ground (arith, h, e))
]

All-contains :
    (P : String → Type 0) (ks : List String)
    → ((j : String) → contains j ks ≡ true → P j)
    → All P ks
unfolding contains
All-contains P [] h = tt
All-contains P (k ∷ ks) h = (
  h k (ground (arith, string_eq.beq_iff k k)),
  All-contains P ks (λ j m. h j (ground (arith, m))),
)

map-same :
    (f g : String → String) (ks : List String)
    → ((j : String) → contains j ks ≡ true → f j ≡ g j)
    → map f ks ≡ map g ks
unfolding contains
map-same f g [] h = refl
map-same f g (k ∷ ks) h =
    let first : f k ≡ g k = h k (ground (arith, string_eq.beq_iff k k)) in
    let rest = map-same f g ks (λ j m. h j (ground (arith, m))) in cc (first, rest)

-- The loop over sorted entries, with fuel for each of them, calls Reduce once for each key, in the
-- order of the keys, with all values of the key.
pub reduce_loop_returns :
    (reducef : Reducef) (fuel : ℕ) (xs : List KeyValue)
    → length xs ≤ fuel
    → IsOrdered xs
    → (ks : List String) × (reduce_loop reducef fuel xs
        ≡ returns (map (λ k. line k (reducef k (values_of k xs))) ks))
      × IsIncreasing ks
      × ((k : String) → contains k ks ≡ has_key k xs)
unfolding reduce_loop contains
reduce_loop_returns reducef fuel [] few o = ([], refl, tt, λ k. refl)
reduce_loop_returns reducef zero (x ∷ rest) few o = absurd (omega arith)
reduce_loop_returns reducef (suc fuel) (x ∷ rest) few o =
    let t = same_key-IsTaken x.key rest o.0 o.1 in
    let more = (same_key x.key rest).1 in
    let (ks, ran, up, keys) =
      reduce_loop_returns reducef fuel more (omega (arith, t.shorter)) t.ordered in
    let new : contains x.key ks ≡ false = keys x.key ∙ t.none_left in
    let here : x.value ∷ (same_key x.key rest).0 ≡ values_of x.key (x ∷ rest) =
      ground (arith, t.all_values, string_eq.beq_iff x.key x.key) in
    let apart : (j : String) → contains j ks ≡ true → (j == x.key) ≡ false =
      λ j m. ground (arith, string_eq.beq_iff j x.key, new, m) in
    let others : map (λ k. line k (reducef k (values_of k more))) ks
        ≡ map (λ k. line k (reducef k (values_of k (x ∷ rest)))) ks =
      map-same (λ k. line k (reducef k (values_of k more)))
        (λ k. line k (reducef k (values_of k (x ∷ rest)))) ks
        (λ j m.
          let same : values_of j more ≡ values_of j (x ∷ rest) = ground (
            arith,
            t.same_values j (apart j m),
            apart j m,
            string_eq.beq_iff x.key j,
            string_eq.beq_iff j x.key,
          ) in
          ap (λ (vs : List String). line j (reducef j vs)) same) in
    (
      x.key ∷ ks,
      ground (arith, ran, ap (reducef x.key) here, others),
      (
        All-contains (λ j. before j x.key ≡ false) ks
            (λ j m. All-keys x.key j more t.behind (sym (keys j) ∙ m)),
        new,
        up,
      ),
      λ k. elim (Bool-cases (k == x.key)) [
        | inl e ↦ ground (arith, e, string_eq.beq_iff k x.key, string_eq.beq_iff x.key k)
        | inr e ↦ ground (
          arith,
          e,
          string_eq.beq_iff k x.key,
          string_eq.beq_iff x.key k,
          keys k,
          t.same_keys k e,
        )
      ],
    )
