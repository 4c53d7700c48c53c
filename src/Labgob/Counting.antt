-- ===== src/Labgob/Counting.antt =====
-- errorCount over a run of calls of the package: what the labs' TestCapital reads.
use mit.Base.{
  ℕ, suc, ◌+◌, ◌≤◌, ◌<◌, String, Bool, true, false, Option, some, List, [], ◌∷◌, nat_eq, ◌==◌, ◌⊎◌,
  nat_beq_iff, contains, Distinct, length, ◌≡◌, refl, sym, ap, subst, ◌↔◌, inl, inr, arith,
  Bool-cases,
}
use mit.Base.Exec.{Exec, returns, ◌>>=◌}
use mit.Labgob.{TypeDesc, Globals, Value, Gob, Access, encode, decode, register, register_name}
use mit.Labgob.Parts.{Reach, lower_of, lower_total, AreIn}
use mit.Labgob.Checking.{IsClosed, IsComplete, IsValid, check_type-IsChecked}
use mit.Labgob.Defaults.{leaves, within, dirty, any_read_only, check_default1-IsWarned}

-- A call, with the state of the encoder, the decoder or the registry.
pub data Call (G : Type 0) : Type 0 where
  encodes decodes registers : (t : ℕ) (v : Value) → G → Call G
  registers_name : String → (t : ℕ) (v : Value) → G → Call G

abbrev pub type_of : {G : Type 0} → Call G → ℕ
type_of (encodes t v g) = t
type_of (decodes t v g) = t
type_of (registers t v g) = t
type_of (registers_name name t v g) = t

abbrev no_access : Access
no_access = record { sticky = false; embed = false }

module _ {G : Type 0} (gob : Gob G) (types : ℕ → TypeDesc) (is_upper : ℕ → Bool) where
  unfoldable pub run_call : ℕ → Call G → Globals → Exec Globals
  unfolding encode decode register register_name
  run_call fuel (encodes t v s) g =
      encode gob types is_upper fuel (some (t, v)) g s >>= λ (r : Globals × G × Option String).
      returns r.0
  run_call fuel (decodes t v s) g =
      decode gob types is_upper fuel (some (t, v)) g s >>= λ (r : Globals × G × Option String).
      returns r.0
  run_call fuel (registers t v s) g =
      register gob types is_upper fuel (some (t, v)) g s >>= λ (r : Globals × G). returns r.0
  run_call fuel (registers_name name t v s) g =
      register_name gob types is_upper fuel name (some (t, v)) g s >>= λ (r : Globals × G).
      returns r.0

  unfoldable pub run_calls : ℕ → List (Call G) → Globals → Exec Globals
  unfolding run_call
  run_calls fuel [] g = returns g
  run_calls fuel (c ∷ cs) g = run_call fuel c g >>= run_calls fuel cs

  -- The warnings of a call that its value is not the default, and whether it panics.
  abbrev pub defaults_of : Call G → ℕ
  defaults_of (decodes t v s) = length (dirty (within (leaves is_upper v 1 "" no_access)))
  defaults_of _ = 0

  abbrev pub hidden_of : Call G → Bool
  hidden_of (decodes t v s) = any_read_only (within (leaves is_upper v 1 "" no_access))
  hidden_of _ = false

  -- What encoding/gob is asked to do in the call returns.
  abbrev pub GobReturns : Call G → Type 0
  GobReturns (encodes t v s) = (r : G × Option String) × (gob.encode (some (t, v)) s ≡ returns r)
  GobReturns (decodes t v s) = (r : G × Option String) × (gob.decode (some (t, v)) s ≡ returns r)
  GobReturns (registers t v s) = (s' : G) × (gob.register (some (t, v)) s ≡ returns s')
  GobReturns (registers_name name t v s) =
      (s' : G) × (gob.register_name name (some (t, v)) s ≡ returns s')

  -- No call decodes into an unexported field or panics in gob, and all types are among the first `n`.
  abbrev pub AreFine : ℕ → List (Call G) → Type 0
  AreFine n [] = Unit
  AreFine n (c ∷ cs) = (type_of c < n) × (hidden_of c ≡ false) × GobReturns c × AreFine n cs

  unfoldable pub defaults : List (Call G) → ℕ
  defaults [] = 0
  defaults (c ∷ cs) = defaults_of c + defaults cs

  -- The type is part of the type of one of the calls.
  abbrev pub IsUsed : List (Call G) → ℕ → Type 0
  IsUsed [] u = ⊥
  IsUsed (c ∷ cs) u = Reach types is_upper (type_of c) u ⊎ IsUsed cs u

  pub record IsCounted (cs : List (Call G)) (g g' : Globals) : Type 0 where
    pub valid : IsValid types is_upper g'
    pub kept : AreIn g.checked g'.checked
    pub used : (u : ℕ) → IsUsed cs u → contains u g'.checked ≡ true
    pub only : (u : ℕ) → contains u g'.checked ≡ true → contains u g.checked ≡ false → IsUsed cs u
    pub counted :
        g'.error_count + lower_total types is_upper g.checked
        ≡ g.error_count + lower_total types is_upper g'.checked + defaults cs

  -- What one call does to the types, and its warnings.
  record HasCalled (c : Call G) (g g' : Globals) : Type 0 where
    valid : IsValid types is_upper g'
    kept : AreIn g.checked g'.checked
    reached : (u : ℕ) → Reach types is_upper (type_of c) u → contains u g'.checked ≡ true
    only :
        (u : ℕ)
        → contains u g'.checked ≡ true
        → contains u g.checked ≡ false
        → Reach types is_upper (type_of c) u
    counted :
        g'.error_count + lower_total types is_upper g.checked
        ≡ g.error_count + lower_total types is_upper g'.checked + defaults_of c

  run_call-HasCalled :
      (n : ℕ) (c : Call G) (g : Globals)
      → IsClosed types is_upper n
      → type_of c < n
      → hidden_of c ≡ false
      → GobReturns c
      → IsValid types is_upper g
      → (g' : Globals) × (run_call (suc n) c g ≡ returns g') × HasCalled c g g'
  unfolding run_call
  run_call-HasCalled n (encodes t v s) g closed lt h gr valid =
      let (g1, ran, k) = check_type-IsChecked types is_upper n t g closed lt valid in
      (
        g1,
        ground (arith, ran, gr.1),
        record {
          valid = k.valid;
          kept = k.kept;
          reached = k.reached;
          only = k.only;
          counted = omega (arith, k.counted);
        },
      )
  run_call-HasCalled n (registers t v s) g closed lt h gr valid =
      let (g1, ran, k) = check_type-IsChecked types is_upper n t g closed lt valid in
      (
        g1,
        ground (arith, ran, gr.1),
        record {
          valid = k.valid;
          kept = k.kept;
          reached = k.reached;
          only = k.only;
          counted = omega (arith, k.counted);
        },
      )
  run_call-HasCalled n (registers_name name t v s) g closed lt h gr valid =
      let (g1, ran, k) = check_type-IsChecked types is_upper n t g closed lt valid in
      (
        g1,
        ground (arith, ran, gr.1),
        record {
          valid = k.valid;
          kept = k.kept;
          reached = k.reached;
          only = k.only;
          counted = omega (arith, k.counted);
        },
      )
  run_call-HasCalled n (decodes t v s) g closed lt h gr valid =
      let (g1, ran1, k) = check_type-IsChecked types is_upper n t g closed lt valid in
      let (g2, ran2, w) = check_default1-IsWarned is_upper v 1 "" no_access g1 h in
      let same = w.kept in
      (
        g2,
        ground (arith, ran1, ran2, gr.1),
        record {
          valid = record {
            complete = subst (IsComplete types is_upper) (sym same) k.valid.complete;
            distinct = subst (λ x. Distinct x) (sym same) k.valid.distinct;
          };
          kept = λ u m. ground (arith, k.kept u m, same);
          reached = λ u r. ground (arith, k.reached u r, same);
          only = λ u m new. k.only u (ground (arith, m, same)) new;
          counted = omega (arith, k.counted, w.counted, ap (lower_total types is_upper) same);
        },
      )

  HasCalled-IsCounted :
      (c : Call G) (cs : List (Call G)) (g g1 g2 : Globals)
      → HasCalled c g g1
      → IsCounted cs g1 g2
      → IsCounted (c ∷ cs) g g2
  unfolding defaults
  HasCalled-IsCounted c cs g g1 g2 h k = record {
    valid = k.valid;
    kept = λ u m. k.kept u (h.kept u m);
    used = λ u r. elim r [ inl first ↦ k.kept u (h.reached u first) | inr rest ↦ k.used u rest ];
    only = λ u m new. elim (Bool-cases (contains u g1.checked)) [
      | inl e ↦ inl (h.only u e new)
      | inr e ↦ inr (k.only u m e)
    ];
    counted = omega (arith, h.counted, k.counted);
  }

  -- A run of calls of Encode, Decode, Register and RegisterName returns, if no Decode is into a value
  -- with a scalar in checkDefault's reach that reflect forbids to read, and no call panics in
  -- encoding/gob. Then the types that it has added to the checked ones are just those that the
  -- calls' types are made of, at any depth, and errorCount has grown by the number of the fields in
  -- lower case of the added types and of the non-default scalars in reach that Decode was given.
  pub run_calls-IsCounted :
      (n : ℕ) (cs : List (Call G)) (g : Globals)
      → IsClosed types is_upper n
      → AreFine n cs
      → IsValid types is_upper g
      → (g' : Globals) × (run_calls (suc n) cs g ≡ returns g') × IsCounted cs g g'
  unfolding run_calls defaults
  run_calls-IsCounted n [] g closed fine valid = (
    g,
    refl,
    record {
      valid = valid;
      kept = λ u m. m;
      used = λ u r. absurd r;
      only = λ u m new. absurd (ground arith);
      counted = omega arith;
    },
  )
  run_calls-IsCounted n (c ∷ cs) g closed fine valid =
      let (g1, ran1, h) = run_call-HasCalled n c g closed fine.0 fine.1 fine.2 valid in
      let (g2, ran2, k) = run_calls-IsCounted n cs g1 closed fine.3 h.valid in
      (g2, ground (arith, ran1, ran2), HasCalled-IsCounted c cs g g1 g2 h k)

  lower_of-le-total :
      (u : ℕ) (seen : List ℕ)
      → contains u seen ≡ true
      → lower_of types is_upper (types u) ≤ lower_total types is_upper seen
  unfolding lower_total contains
  lower_of-le-total u [] m = cc
  lower_of-le-total u (t ∷ seen) m = elim (Bool-cases (u == t)) [
    | inl e ↦ let is = (nat_beq_iff u t).0 e in rw is (omega arith)
    | inr e ↦ omega (arith, lower_of-le-total u seen (ground (arith, e, m)))
  ]

  lower_total_zero :
      (seen : List ℕ)
      → ((u : ℕ) → contains u seen ≡ true → lower_of types is_upper (types u) ≡ 0)
      → lower_total types is_upper seen ≡ 0
  unfolding lower_total contains
  lower_total_zero [] h = refl
  lower_total_zero (t ∷ seen) h = omega (
    arith,
    h t (ground (arith, nat_beq_iff t t)),
    lower_total_zero seen (λ u m. h u (ground (arith, m))),
  )

  -- The first calls of a process return, if no Decode is into a value with a scalar in checkDefault's
  -- reach that reflect forbids to read, and no call panics in encoding/gob. Then errorCount is still
  -- 0 exactly if no type that the calls' types are made of has a field in lower case, and no Decode
  -- was given a non-default scalar within the reach, which is three levels of structs and pointers.
  pub run_calls-clean_iff :
      (n : ℕ) (cs : List (Call G))
      → IsClosed types is_upper n
      → AreFine n cs
      → let start : Globals = record { error_count = 0; checked = []; printed = [] } in
        (g' : Globals) × (run_calls (suc n) cs start ≡ returns g')
        × ((g'.error_count ≡ 0)
            ↔ (((u : ℕ) → IsUsed cs u → lower_of types is_upper (types u) ≡ 0) × (defaults cs ≡ 0)))
  unfolding lower_total contains
  run_calls-clean_iff n cs closed fine =
      let start : Globals = record { error_count = 0; checked = []; printed = [] } in
      let valid : IsValid types is_upper start = record {
        complete = λ u v m part. absurd (ground arith);
        distinct = tt;
      } in
      let (g', ran, k) = run_calls-IsCounted n cs start closed fine valid in
      (
        g',
        ran,
        (
          λ zero_. (
            λ u r. omega (arith, k.counted, zero_, lower_of-le-total u g'.checked (k.used u r)),
            omega (arith, k.counted, zero_),
          ),
          λ clean. omega (
            arith,
            k.counted,
            clean.1,
            lower_total_zero g'.checked (λ u m. clean.0 u (k.only u m refl)),
          ),
        ),
      )
