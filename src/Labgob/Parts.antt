-- ===== src/Labgob/Parts.antt =====
-- The parts of a type, and what holds after some types were checked.
use mit.Base.{
  ℕ, zero, suc, ◌+◌, ◌≤◌, ◌<◌, Bool, true, false, List, [], ◌∷◌, if◌then◌else◌, ◌==◌, nat_eq,
  nat_beq_iff, contains, Distinct, ◌≡◌, sym, ap, subst, inl, inr, arith, Bool-cases,
}
use mit.Labgob.{
  Field, TypeDesc, struct, slice, array, ptr, map_of, other, Globals, first_rune, complain,
}

-- The types of the parts of a type.
unfoldable pub field_types : List Field → List ℕ
field_types [] = []
field_types (f ∷ fs) = f.type_id ∷ field_types fs

unfoldable pub parts : TypeDesc → List ℕ
unfolding field_types
parts (struct fs) = field_types fs
parts (slice e) = e ∷ []
parts (array e) = e ∷ []
parts (ptr e) = e ∷ []
parts (map_of key e) = e ∷ key ∷ []
parts other = []

-- How many of the types below `n` are not in the list.
unfoldable pub unchecked : ℕ → List ℕ → ℕ
unchecked zero seen = 0
unchecked (suc n) seen = if contains n seen then unchecked n seen else suc (unchecked n seen)

-- All that is in the first list is in the second.
abbrev pub AreIn : List ℕ → List ℕ → Type 0
AreIn xs ys = (u : ℕ) → contains u xs ≡ true → contains u ys ≡ true

pub unchecked_mono : (n : ℕ) (xs ys : List ℕ) → AreIn xs ys → unchecked n ys ≤ unchecked n xs
unfolding unchecked
unchecked_mono zero xs ys h = omega arith
unchecked_mono (suc n) xs ys h = ground (arith, unchecked_mono n xs ys h, h n)

pub unchecked-cons :
    (n t : ℕ) (xs : List ℕ)
    → t < n
    → contains t xs ≡ false
    → suc (unchecked n (t ∷ xs)) ≤ unchecked n xs
unfolding unchecked contains
unchecked-cons zero t xs lt h = absurd (omega arith)
unchecked-cons (suc n) t xs lt h = elim (Bool-cases (contains n (t ∷ xs))) [
  | inl e ↦ ground (
    arith,
    unchecked-cons n t xs,
    unchecked_mono n xs (t ∷ xs) (λ u m. ground arith),
    nat_beq_iff n t,
    e,
    h,
  )
  | inr e ↦ ground (arith, unchecked-cons n t xs, nat_beq_iff n t, e, h)
]

pub unchecked-le : (n : ℕ) (xs : List ℕ) → unchecked n xs ≤ n
unfolding unchecked
unchecked-le zero xs = omega arith
unchecked-le (suc n) xs = ground (arith, unchecked-le n xs)

module _ (types : ℕ → TypeDesc) (is_upper : ℕ → Bool) where
  -- The types that are part of a type, at any depth.
  pub data Reach (t : ℕ) : ℕ → Type 0 where
    here : Reach t t
    inner : {u v : ℕ} → Reach t u → contains v (parts (types u)) ≡ true → Reach t v

  Reach-outer : {t r u : ℕ} → contains r (parts (types t)) ≡ true → Reach r u → Reach t u
  Reach-outer {t} {r} m here = inner {u = t} here m
  Reach-outer m (inner {u} rest part) = inner (Reach-outer m rest) part

  -- Fields whose name does not start in upper case.
  unfoldable pub lower_fields : List Field → ℕ
  lower_fields [] = 0
  lower_fields (f ∷ fs) =
      if is_upper (first_rune f.name) then lower_fields fs else suc (lower_fields fs)

  unfoldable pub lower_of : TypeDesc → ℕ
  unfolding lower_fields
  lower_of (struct fs) = lower_fields fs
  lower_of _ = 0

  unfoldable pub lower_total : List ℕ → ℕ
  unfolding lower_of
  lower_total [] = 0
  lower_total (t ∷ ts) = lower_of (types t) + lower_total ts

  -- What holds after the types `ts` were checked from `g` on, with `own` more complaints.
  pub record HasChecked (ts : List ℕ) (own : ℕ) (g g' : Globals) : Type 0 where
    pub found : AreIn ts g'.checked
    pub grown : AreIn g.checked g'.checked
    pub distinct : Distinct g'.checked
    -- every type that is new has its parts checked, too
    pub inner :
        (u v : ℕ)
        → contains u g'.checked ≡ true
        → contains u g.checked ≡ false
        → contains v (parts (types u)) ≡ true
        → contains v g'.checked ≡ true
    -- and is part of one of `ts`
    pub from :
        (u : ℕ)
        → contains u g'.checked ≡ true
        → contains u g.checked ≡ false
        → (r : ℕ) × (contains r ts ≡ true) × Reach r u
    pub counted :
        g'.error_count + lower_total g.checked ≡ g.error_count + lower_total g'.checked + own

  pub HasChecked-then :
      (t : ℕ) (ts : List ℕ) (a b : ℕ) (g g1 g2 : Globals)
      → HasChecked (t ∷ []) a g g1
      → HasChecked ts b g1 g2
      → HasChecked (t ∷ ts) (a + b) g g2
  unfolding contains
  HasChecked-then t ts a b g g1 g2 h k = record {
    found = λ u m. ground (arith, h.found u, k.grown u, k.found u);
    grown = λ u m. k.grown u (h.grown u m);
    distinct = k.distinct;
    inner = λ u v m new part. elim (Bool-cases (contains u g1.checked)) [
      | inl e ↦ k.grown v (h.inner u v e new part)
      | inr e ↦ k.inner u v m e part
    ];
    from = λ u m new. elim (Bool-cases (contains u g1.checked)) [
      | inl e ↦ let (r, is, way) = h.from u e new in (r, ground (arith, is), way)
      | inr e ↦ let (r, is, way) = k.from u m e in (r, ground (arith, is), way)
    ];
    counted = omega (arith, h.counted, k.counted);
  }

  -- Complaints that come before.
  pub HasChecked-later :
      (ts : List ℕ) (own own' : ℕ) (g0 g g' : Globals)
      → g.checked ≡ g0.checked
      → g.error_count + own ≡ g0.error_count + own'
      → HasChecked ts own g g'
      → HasChecked ts own' g0 g'
  HasChecked-later ts own own' g0 g g' e n h = record {
    found = h.found;
    grown = λ u m. h.grown u (ground (arith, e));
    distinct = h.distinct;
    inner = λ u v m new part. h.inner u v m (ground (arith, e)) part;
    from = λ u m new. h.from u m (ground (arith, e));
    counted = omega (arith, h.counted, n, ap lower_total e);
  }

  pub complain-counts :
      (t : ℕ) (f : Field) (g : Globals)
      → ((complain types is_upper t f g).checked ≡ g.checked)
        × ((complain types is_upper t f g).error_count
            ≡ g.error_count + (if is_upper (first_rune f.name) then 0 else 1))
  unfolding complain
  complain-counts t f g = ground arith

  pub HasChecked-none : (g : Globals) → Distinct g.checked → HasChecked [] 0 g g
  unfolding contains
  HasChecked-none g d = record {
    found = λ u m. absurd (ground arith);
    grown = λ u m. m;
    distinct = d;
    inner = λ u v m new part. absurd (ground arith);
    from = λ u m new. absurd (ground arith);
    counted = omega arith;
  }

  -- A type that is checked already.
  pub HasChecked-old :
      (t : ℕ) (g : Globals)
      → contains t g.checked ≡ true
      → Distinct g.checked
      → HasChecked (t ∷ []) 0 g g
  unfolding contains
  HasChecked-old t g e d = record {
    found = λ u m. ground (arith, nat_beq_iff u t, m, e);
    grown = λ u m. m;
    distinct = d;
    inner = λ u v m new part. absurd (ground arith);
    from = λ u m new. absurd (ground arith);
    counted = omega arith;
  }

  -- A new type, from the check of its parts.
  pub HasChecked-new :
      (t : ℕ) (g g' : Globals)
      → contains t g.checked ≡ false
      → HasChecked (parts (types t)) (lower_of (types t)) (record g { checked = t ∷ g.checked }) g'
      → HasChecked (t ∷ []) 0 g g'
  unfolding contains lower_total
  HasChecked-new t g g' e h = record {
    found = λ u m. h.grown u (ground (arith, m));
    grown = λ u m. h.grown u (ground (arith, m));
    distinct = h.distinct;
    inner = λ u v m new part. elim (Bool-cases (u == t)) [
      | inl is ↦
          h.found v (subst (λ w. contains v (parts (types w)) ≡ true) ((nat_beq_iff u t).0 is) part)
      | inr not_t ↦ h.inner u v m (ground (arith, not_t, new)) part
    ];
    from = λ u m new. elim (Bool-cases (u == t)) [
      | inl is ↦ (
        t,
        ground (arith, nat_beq_iff t t),
        subst (λ w. Reach t w) (sym ((nat_beq_iff u t).0 is)) here,
      )
      | inr not_t ↦
          let (r, is, way) = h.from u m (ground (arith, not_t, new)) in
          (t, ground (arith, nat_beq_iff t t), Reach-outer is way)
    ];
    counted = omega (arith, h.counted);
  }
