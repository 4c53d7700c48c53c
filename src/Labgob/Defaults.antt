-- ===== src/Labgob/Defaults.antt =====
-- checkDefault1: which of the scalars in a value it warns of, and when it panics.
use mit.Base.{
  ℕ, ◌+◌, ◌<◌, String, Bool, true, false, ◌||◌, List, [], ◌∷◌, ◌++◌, if◌then◌else◌, ltb, ◌==◌,
  string_eq, length, ◌≡◌, refl, sym, ap, ◌∙◌, inl, inr, arith, Bool-cases, append_nil, fun_ext,
}
use mit.Base.Exec.{Exec, returns, panics, ◌>>=◌}
use mit.Labgob.{
  Globals, Line, non_default, Scalar, Value, scalar, record_of, nil_ptr, opaque, ptr_to, Values,
  nil, cons, is_zero, warn_default, path_to, Access, is_read_only, access_field, check_default1,
  check_fields1,
}

-- A scalar of a value, at any depth.
pub record Leaf : Type 0 where
  pub depth : ℕ
  pub name : String
  pub access : Access
  pub type_name : String
  pub content : Scalar

-- The scalars within checkDefault's reach; those that a warning is due for, in their order.
unfoldable pub within : List Leaf → List Leaf
within [] = []
within (l ∷ ls) = if ltb 3 l.depth then within ls else l ∷ within ls

unfoldable pub dirty : List Leaf → List Leaf
dirty [] = []
dirty (l ∷ ls) = if is_zero l.content then dirty ls else l ∷ dirty ls

unfoldable pub any_read_only : List Leaf → Bool
any_read_only [] = false
any_read_only (l ∷ ls) = is_read_only l.access || any_read_only ls

abbrev pub label : Leaf → String
label l = if l.name == "" then l.type_name else l.name

-- The first warning is printed, if nothing was wrong before.
abbrev pub first_warning : ℕ → List Leaf → List Line
first_warning errors [] = []
first_warning errors (l ∷ ls) = if ltb errors 1 then non_default (label l) ∷ [] else []

module _ (is_upper : ℕ → Bool) where
  -- All scalars of a value, in the order of the fields.
  unfoldable mutual
    pub leaves : Value → ℕ → String → Access → List Leaf
    leaves (scalar type_name s) depth name a =
        record { depth = depth; name = name; access = a; type_name = type_name; content = s } ∷ []
    leaves (record_of fs) depth name a = field_leaves fs depth name a
    leaves nil_ptr depth name a = []
    leaves opaque depth name a = []
    leaves (ptr_to v) depth name a = leaves v (depth + 1) name a

    pub field_leaves : Values → ℕ → String → Access → List Leaf
    field_leaves nil depth name a = []
    field_leaves (cons field embedded v fs) depth name a =
        leaves v (depth + 1) (path_to name field) (access_field is_upper field embedded a)
        ++ field_leaves fs depth name a

  -- One look at each scalar, in order.
  unfoldable pub scan : List Leaf → Globals → Exec Globals
  scan [] g = returns g
  scan (l ∷ ls) g =
      if ltb 3 l.depth
      then scan ls g
      else if is_read_only l.access
      then panics
      else scan ls (if is_zero l.content then g else warn_default l.name l.type_name g)

  scan-append : (ls ks : List Leaf) (g : Globals) → scan (ls ++ ks) g ≡ (scan ls g >>= scan ks)
  unfolding scan
  scan-append [] ks g = refl
  scan-append (l ∷ ls) ks g =
      ground (arith, scan-append ls ks g, scan-append ls ks (warn_default l.name l.type_name g))

  mutual
    unfolding scan leaves

    scan_deep :
        (v : Value) (d : ℕ) (n : String) (a : Access) (g : Globals)
        → 3 < d
        → scan (leaves v d n a) g ≡ returns g
    scan_deep (scalar type_name s) d n a g h = ground arith
    scan_deep (record_of fs) d n a g h = scan_deep_fields fs d n a g h
    scan_deep nil_ptr d n a g h = refl
    scan_deep opaque d n a g h = refl
    scan_deep (ptr_to v) d n a g h = scan_deep v (d + 1) n a g (omega arith)

    scan_deep_fields :
        (fs : Values) (d : ℕ) (n : String) (a : Access) (g : Globals)
        → 3 < d
        → scan (field_leaves fs d n a) g ≡ returns g
    scan_deep_fields nil d n a g h = refl
    scan_deep_fields (cons field embedded v fs) d n a g h =
        let a1 = access_field is_upper field embedded a in
        ground (
          arith,
          scan-append (leaves v (d + 1) (path_to n field) a1) (field_leaves fs d n a) g,
          scan_deep v (d + 1) (path_to n field) a1 g,
          scan_deep_fields fs d n a g,
        )

  mutual
    unfolding scan leaves check_default1

    check_default1-scan :
        (v : Value) (d : ℕ) (n : String) (a : Access) (g : Globals)
        → check_default1 is_upper v d n a g ≡ scan (leaves v d n a) g
    check_default1-scan (scalar type_name s) d n a g = ground arith
    check_default1-scan (record_of fs) d n a g = elim (Bool-cases (ltb 3 d)) [
      | inl e ↦ rw e (sym (scan_deep_fields fs d n a g (ground arith)))
      | inr e ↦ rw e (check_fields1-scan fs d n a g)
    ]
    check_default1-scan nil_ptr d n a g = refl
    check_default1-scan opaque d n a g = refl
    check_default1-scan (ptr_to v) d n a g = elim (Bool-cases (ltb 3 d)) [
      | inl e ↦ rw e (sym (scan_deep v (d + 1) n a g (ground arith)))
      | inr e ↦ rw e (check_default1-scan v (d + 1) n a g)
    ]

    check_fields1-scan :
        (fs : Values) (d : ℕ) (n : String) (a : Access) (g : Globals)
        → check_fields1 is_upper fs d n a g ≡ scan (field_leaves fs d n a) g
    check_fields1-scan nil d n a g = refl
    check_fields1-scan (cons field embedded v fs) d n a g =
        let a1 = access_field is_upper field embedded a in
        let first = leaves v (d + 1) (path_to n field) a1 in
        rw (check_default1-scan v (d + 1) (path_to n field) a1 g) (
          ap (λ k. scan first g >>= k) (fun_ext (check_fields1-scan fs d n a))
          ∙ sym (scan-append first (field_leaves fs d n a) g))

  -- What checkDefault1 does with the scalars `ls` that it looks at.
  pub record IsWarned (ls : List Leaf) (g g' : Globals) : Type 0 where
    pub counted : g'.error_count ≡ g.error_count + length (dirty ls)
    pub printed : g'.printed ≡ g.printed ++ first_warning g.error_count (dirty ls)
    pub kept : g'.checked ≡ g.checked

  scan-IsWarned :
      (ls : List Leaf) (g : Globals)
      → any_read_only (within ls) ≡ false
      → (g' : Globals) × (scan ls g ≡ returns g') × IsWarned (within ls) g g'
  unfolding scan within dirty any_read_only warn_default
  scan-IsWarned [] g h =
      (g, refl, record { counted = omega arith; printed = sym (append_nil g.printed); kept = refl })
  scan-IsWarned (l ∷ ls) g h = elim (Bool-cases (ltb 3 l.depth)) [
    | inl deep ↦
        let (g', ran, w) = scan-IsWarned ls g (ground arith) in (g', rw deep ran, rw deep w)
    | inr near ↦
        let open_ : is_read_only l.access ≡ false = ground arith in
        let rest : any_read_only (within ls) ≡ false = ground arith in
        elim (Bool-cases (is_zero l.content)) [
          | inl e ↦
              let (g', ran, w) = scan-IsWarned ls g rest in
              (
                g',
                ground (arith, near, open_, e, ran),
                record {
                  counted = ground (arith, w.counted, near, e);
                  printed = ground (arith, w.printed, near, e);
                  kept = w.kept;
                },
              )
          | inr e ↦
              let g1 = warn_default l.name l.type_name g in
              let (g', ran, w) = scan-IsWarned ls g1 rest in
              let later : first_warning g1.error_count (dirty (within ls)) ≡ [] =
                quiet g1.error_count (dirty (within ls)) (omega arith) in
              (
                g',
                ground (arith, near, open_, e, ran),
                record {
                  counted = ground (arith, w.counted, near, e);
                  printed = ground (
                    arith,
                    w.printed,
                    near,
                    e,
                    later,
                    append_nil g1.printed,
                    append_nil g.printed,
                  );
                  kept = w.kept;
                },
              )
        ]
  ]
    where
      quiet : (errors : ℕ) (ks : List Leaf) → 0 < errors → first_warning errors ks ≡ []
      quiet errors [] h = refl
      quiet errors (k ∷ ks) h = ground arith

  scan_panics :
      (ls : List Leaf) (g : Globals) → any_read_only (within ls) ≡ true → scan ls g ≡ panics
  unfolding scan within any_read_only
  scan_panics [] g h = cc
  scan_panics (l ∷ ls) g h =
      ground (arith, scan_panics ls g, scan_panics ls (warn_default l.name l.type_name g))

  -- checkDefault1 adds one to errorCount for each scalar within its reach, which is three levels of
  -- structs and pointers, that is not the zero of its type. It prints the first of them, and that
  -- only if errorCount was 0. This needs that no scalar within the reach is one that reflect forbids to
  -- read: the way to it leads through no unexported field, but for embedded ones before the last field.
  pub check_default1-IsWarned :
      (v : Value) (d : ℕ) (n : String) (a : Access) (g : Globals)
      → any_read_only (within (leaves v d n a)) ≡ false
      → (g' : Globals) × (check_default1 is_upper v d n a g ≡ returns g')
        × IsWarned (within (leaves v d n a)) g g'
  check_default1-IsWarned v d n a g h =
      let (g', ran, w) = scan-IsWarned (leaves v d n a) g h in
      (g', check_default1-scan v d n a g ∙ ran, w)

  -- If the way to a scalar within the reach of checkDefault1 leads through an unexported field that is
  -- not embedded, or if its last field is unexported and embedded, the check panics, whatever the
  -- scalar's value is.
  pub check_default1_panics :
      (v : Value) (d : ℕ) (n : String) (a : Access) (g : Globals)
      → any_read_only (within (leaves v d n a)) ≡ true
      → check_default1 is_upper v d n a g ≡ panics
  check_default1_panics v d n a g h =
      check_default1-scan v d n a g ∙ scan_panics (leaves v d n a) g h
