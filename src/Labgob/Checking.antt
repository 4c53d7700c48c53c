-- ===== src/Labgob/Checking.antt =====
-- checkType over types that may refer to themselves.
use mit.Base.{
  ℕ, zero, suc, ◌+◌, ◌≤◌, ◌<◌, Bool, true, false, List, [], ◌∷◌, nat_eq, nat_beq_iff, contains,
  Distinct, All, ◌≡◌, refl, sym, ap, subst, inl, inr, arith, Bool-cases,
}
use mit.Base.Exec.{Exec, returns}
use mit.Labgob.{
  Field, TypeDesc, struct, slice, array, ptr, map_of, other, Globals, complain, check_fields,
  check_parts, check_type,
}
use mit.Labgob.Parts.{
  field_types, parts, unchecked, AreIn, unchecked_mono, unchecked-cons, unchecked-le, Reach, here,
  inner, lower_fields, lower_of, lower_total, HasChecked, HasChecked-then, HasChecked-later,
  HasChecked-none, HasChecked-old, HasChecked-new, complain-counts,
}

module _ (types : ℕ → TypeDesc) (is_upper : ℕ → Bool) where
  -- A check of each type below `n` ends, from states in which at most `left` are unchecked.
  Checks : (n left : ℕ) → (ℕ → Globals → Exec Globals) → Type 0
  Checks n left check =
      (t : ℕ) (g : Globals)
      → t < n
      → unchecked n g.checked ≤ left
      → Distinct g.checked
      → (g' : Globals) × (check t g ≡ returns g') × HasChecked types is_upper (t ∷ []) 0 g g'

  check_fields-HasChecked :
      (n left : ℕ) (check : ℕ → Globals → Exec Globals)
      → Checks n left check
      → (t : ℕ) (fs : List Field) (g : Globals) → All (λ u. u < n) (field_types fs)
      → unchecked n g.checked ≤ left
      → Distinct g.checked
      → (g' : Globals) × (check_fields types is_upper check t fs g ≡ returns g')
        × HasChecked types is_upper (field_types fs) (lower_fields types is_upper fs) g g'
  unfolding check_fields field_types lower_fields Checks
  check_fields-HasChecked n left check ih t [] g ok room d =
      (g, refl, HasChecked-none types is_upper g d)
  check_fields-HasChecked n left check ih t (f ∷ fs) g ok room d =
      let g0 = complain types is_upper t f g in
      let (same, more) = complain-counts types is_upper t f g in
      let (g1, ran1, h1) =
        ih f.type_id g0 ok.0 (rw same room) (subst (λ c. Distinct c) (sym same) d) in
      let smaller = unchecked_mono n g0.checked g1.checked h1.grown in
      let (g2, ran2, h2) =
        check_fields-HasChecked n left check ih t fs g1 ok.1
          (omega (arith, smaller, ap (unchecked n) same)) h1.distinct in
      (
        g2,
        ground (arith, ran1, ran2),
        HasChecked-later types is_upper (field_types (f ∷ fs)) (0 + lower_fields types is_upper fs)
            (lower_fields types is_upper (f ∷ fs)) g g0 g2 same (ground (arith, more))
            (HasChecked-then types is_upper f.type_id (field_types fs) 0
              (lower_fields types is_upper fs) g0 g1 g2 h1 h2),
      )

  -- Types have parts among the first `n` types only.
  abbrev pub IsClosed : ℕ → Type 0
  IsClosed n = (t : ℕ) → t < n → All (λ u. u < n) (parts (types t))

  check_parts-HasChecked :
      (n left : ℕ) (check : ℕ → Globals → Exec Globals)
      → Checks n left check
      → (t : ℕ) (desc : TypeDesc) (g : Globals) → All (λ u. u < n) (parts desc)
      → unchecked n g.checked ≤ left
      → Distinct g.checked
      → (g' : Globals) × (check_parts types is_upper check t desc g ≡ returns g')
        × HasChecked types is_upper (parts desc) (lower_of types is_upper desc) g g'
  unfolding check_parts parts lower_of Checks
  check_parts-HasChecked n left check ih t (struct fs) g ok room d =
      check_fields-HasChecked n left check ih t fs g ok room d
  check_parts-HasChecked n left check ih t (slice e) g ok room d = ih e g ok.0 room d
  check_parts-HasChecked n left check ih t (array e) g ok room d = ih e g ok.0 room d
  check_parts-HasChecked n left check ih t (ptr e) g ok room d = ih e g ok.0 room d
  check_parts-HasChecked n left check ih t (map_of key e) g ok room d =
      let (g1, ran1, h1) = ih e g ok.0 room d in
      let smaller = unchecked_mono n g.checked g1.checked h1.grown in
      let (g2, ran2, h2) = ih key g1 ok.1.0 (omega (arith, smaller)) h1.distinct in
      (
        g2,
        ground (arith, ran1, ran2),
        HasChecked-later types is_upper (e ∷ key ∷ []) (0 + 0) 0 g g g2 refl (omega arith)
            (HasChecked-then types is_upper e (key ∷ []) 0 0 g g1 g2 h1 h2),
      )
  check_parts-HasChecked n left check ih t other g ok room d =
      (g, refl, HasChecked-none types is_upper g d)

  check_type-Checks :
      (n left : ℕ) → IsClosed n → Checks n left (check_type types is_upper (suc left))
  unfolding Checks check_type
  check_type-Checks n zero closed t g lt room d = elim (Bool-cases (contains t g.checked)) [
    | inl e ↦ (g, rw e, HasChecked-old types is_upper t g e d)
    | inr e ↦ absurd (omega (arith, unchecked-cons n t g.checked lt e))
  ]
  check_type-Checks n (suc left) closed t g lt room d = elim (Bool-cases (contains t g.checked)) [
    | inl e ↦ (g, rw e, HasChecked-old types is_upper t g e d)
    | inr e ↦
        let (g', ran, h) =
          check_parts-HasChecked n left (check_type types is_upper (suc left))
            (check_type-Checks n left closed) t (types t) (record g { checked = t ∷ g.checked })
            (closed t lt) (omega (arith, unchecked-cons n t g.checked lt e)) (e, d) in
        (g', ground (arith, e, ran), HasChecked-new types is_upper t g g' e h)
  ]

  -- All parts of a checked type are checked.
  abbrev pub IsComplete : List ℕ → Type 0
  IsComplete seen =
      (u v : ℕ)
      → contains u seen ≡ true
      → contains v (parts (types u)) ≡ true
      → contains v seen ≡ true

  pub record IsValid (g : Globals) : Type 0 where
    pub complete : IsComplete g.checked
    pub distinct : Distinct g.checked

  -- What a call of checkType does.
  pub record IsChecked (t : ℕ) (g g' : Globals) : Type 0 where
    pub valid : IsValid g'
    pub kept : AreIn g.checked g'.checked
    pub reached : (u : ℕ) → Reach types is_upper t u → contains u g'.checked ≡ true
    pub only :
        (u : ℕ)
        → contains u g'.checked ≡ true
        → contains u g.checked ≡ false
        → Reach types is_upper t u
    pub counted :
        g'.error_count + lower_total types is_upper g.checked
        ≡ g.error_count + lower_total types is_upper g'.checked

  IsComplete-Reach :
      (seen : List ℕ) (t u : ℕ)
      → IsComplete seen
      → contains t seen ≡ true
      → Reach types is_upper t u
      → contains u seen ≡ true
  IsComplete-Reach seen t u c m here = m
  IsComplete-Reach seen t v c m (inner {u} r part) = c u v (IsComplete-Reach seen t u c m r) part

  -- checkType ends, also for types that refer to themselves, where the fuel is more than the number
  -- of the types. Then just the type and all that it is made of, at any depth, has been added to the
  -- checked types, as far as it was not there, and errorCount has grown by the number of the fields
  -- in lower case of just the types that are new; no type stands in `checked` twice.
  pub check_type-IsChecked :
      (n t : ℕ) (g : Globals)
      → IsClosed n
      → t < n
      → IsValid g
      → (g' : Globals) × (check_type types is_upper (suc n) t g ≡ returns g') × IsChecked t g g'
  unfolding Checks
  check_type-IsChecked n t g closed lt v =
      let (g', ran, h) =
        check_type-Checks n n closed t g lt (unchecked-le n g.checked) v.distinct in
      let complete : IsComplete g'.checked = λ u w m part.
        elim (Bool-cases (contains u g.checked)) [
          | inl old ↦ h.grown w (v.complete u w old part)
          | inr new ↦ h.inner u w m new part
        ] in
      (
        g',
        ran,
        record {
          valid = record { complete = complete; distinct = h.distinct };
          kept = h.grown;
          reached = λ u r. IsComplete-Reach g'.checked t u complete (h.found t (self t)) r;
          only = λ u m new.
              let (r, is, way) = h.from u m new in
              subst (λ w. Reach types is_upper w u) (one t r is) way;
          counted = omega (arith, h.counted);
        },
      )
    where
      one : (t r : ℕ) → contains r (t ∷ []) ≡ true → r ≡ t
      one t r m = unfold contains in ground (arith, nat_beq_iff r t, m)

      self : (t : ℕ) → contains t (t ∷ []) ≡ true
      self t = unfold contains in ground (arith, nat_beq_iff t t)
