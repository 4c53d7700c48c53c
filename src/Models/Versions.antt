-- ===== src/Models/Versions.antt =====
-- What a sequence of operations that the model accepts says of the versions and the answers.
use mit.Base.{
  ℕ, suc, ◌+◌, ◌%◌, ◌^◌, ◌≤◌, ◌<◌, String, Bool, true, false, ◌||◌, ◌&&◌, List, [], ◌∷◌,
  if◌then◌else◌, ◌==◌, nat_eq, string_eq, length, nat_beq_iff, ◌≡◌, refl, sym, ◌≢◌, ◌⊎◌, inl, inr,
  arith, Bool-cases, ap,
}
use mit.Models.{KvInput, KvOutput, KvState, Operation, kv_state, step_kv}

-- A sequence that the model accepts from one state to another.
pub data Accepts : KvState → List Operation → KvState → Type 0 where
  nothing : {st : KvState} → Accepts st [] st
  accepted :
      {st st1 st2 : KvState} {o : Operation} {ops : List Operation}
      → step_kv st o.input o.output ≡ (true, kv_state st1)
      → Accepts st1 ops st2
      → Accepts st (o ∷ ops) st2

abbrev pub is_put : String → Operation → Bool
is_put err o = o.input.op == 1 && o.output.err == err

-- The puts that were answered with `err`.
unfoldable pub puts : String → List Operation → ℕ
puts err [] = 0
puts err (o ∷ ops) = if is_put err o then suc (puts err ops) else puts err ops

-- The puts at version `v` that were answered with OK.
unfoldable pub ok_puts_at : ℕ → List Operation → ℕ
ok_puts_at v [] = 0
ok_puts_at v (o ∷ ops) =
    if is_put "OK" o && o.input.version == v then suc (ok_puts_at v ops) else ok_puts_at v ops

-- What the two kinds of accepted operations do: `Kept` leaves the state as it is (a get, or a put
-- that is refused), `Moved` is a put that takes effect.
pub record Kept (st st1 : KvState) (inp : KvInput) (out : KvOutput) : Type 0 where
  pub same : st1 ≡ st
  pub get_or_refused :
      (inp.op ≡ 0) × (out.value ≡ st.value)
      ⊎ (inp.op ≡ 1)
        × (inp.version ≢ st.version)
        × ((out.err ≡ "ErrVersion") ⊎ (out.err ≡ "ErrMaybe"))

pub record Moved (st st1 : KvState) (inp : KvInput) (out : KvOutput) : Type 0 where
  pub put : inp.op ≡ 1
  pub at_version : inp.version ≡ st.version
  pub next : st1.version ≡ (st.version + 1) % 2 ^ 64
  pub value : st1.value ≡ inp.value
  pub answer : (out.err ≡ "OK") ⊎ (out.err ≡ "ErrMaybe")

or_true : (a b : Bool) → (a || b) ≡ true → (a ≡ true) ⊎ (b ≡ true)
or_true true b h = inl refl
or_true false b h = inr h

one_of : (s a b : String) → (s == a || s == b) ≡ true → (s ≡ a) ⊎ (s ≡ b)
one_of s a b h = elim (or_true (s == a) (s == b) h) [
  | inl e ↦ inl ((string_eq.beq_iff s a).0 e)
  | inr e ↦ inr ((string_eq.beq_iff s b).0 e)
]

pub step_cases :
    (st st1 : KvState) (inp : KvInput) (out : KvOutput)
    → step_kv st inp out ≡ (true, kv_state st1)
    → Kept st st1 inp out ⊎ Moved st st1 inp out
unfolding step_kv
step_cases st st1 inp out h = elim (Bool-cases (inp.op == 0)) [
  | inl get ↦ inl (record {
    same = ground arith;
    get_or_refused =
        inl ((nat_beq_iff inp.op 0).0 get, (string_eq.beq_iff out.value st.value).0 (ground arith));
  })
  | inr other ↦ elim (Bool-cases (inp.op == 1)) [
    | inr bad ↦ absurd (ground arith)
    | inl put ↦ elim (Bool-cases (st.version == inp.version)) [
      | inl same ↦ inr (record {
        put = (nat_beq_iff inp.op 1).0 put;
        at_version = sym ((nat_beq_iff st.version inp.version).0 same);
        next = ground arith;
        value = ground arith;
        answer = one_of out.err "OK" "ErrMaybe" (ground arith);
      })
      | inr differs ↦ inl (record {
        same = ground arith;
        get_or_refused = inr (
          (nat_beq_iff inp.op 1).0 put,
          (λ e. ground (arith, nat_beq_iff st.version inp.version)),
          one_of out.err "ErrVersion" "ErrMaybe" (ground arith),
        );
      })
    ]
  ]
]

Kept-not_ok :
    (st st1 : KvState) (o : Operation) → Kept st st1 o.input o.output → is_put "OK" o ≡ false
Kept-not_ok st st1 o kept = elim kept.get_or_refused [
  | inl (get, _) ↦ ground arith
  | inr (_, _, inl e) ↦ rw e (ground arith)
  | inr (_, _, inr e) ↦ rw e (ground arith)
]

Moved-answer :
    (st st1 : KvState) (o : Operation)
    → Moved st st1 o.input o.output
    → ((is_put "OK" o ≡ true) × (is_put "ErrMaybe" o ≡ false))
      ⊎ ((is_put "OK" o ≡ false) × (is_put "ErrMaybe" o ≡ true))
Moved-answer st st1 o moved = elim moved.answer [
  | inl e ↦ inl (rw (e, moved.put) refl, rw (e, moved.put) refl)
  | inr e ↦ inr (rw (e, moved.put) refl, rw (e, moved.put) refl)
]

-- The number of puts that took effect lies between the puts that were answered with OK and those
-- that were answered with OK or ErrMaybe, as long as the version does not wrap.
pub Accepts-version :
    (st st2 : KvState) (ops : List Operation)
    → Accepts st ops st2
    → st.version + length ops < 2 ^ 64
    → (st.version + puts "OK" ops ≤ st2.version)
      × (st2.version ≤ st.version + puts "OK" ops + puts "ErrMaybe" ops)
unfolding puts
Accepts-version st st2 [] nothing small = (omega arith, omega arith)
Accepts-version st st2 (o ∷ ops) (accepted {st1 = st1} ok rest) small =
    elim (step_cases st st1 o.input o.output ok) [
      | inl kept ↦
          let same : st1.version ≡ st.version = ap (λ (s : KvState). s.version) kept.same in
          let ih = Accepts-version st1 st2 ops rest (ground (arith, same)) in
          ground (arith, same, ih, Kept-not_ok st st1 o kept)
      | inr moved ↦
          let next : st1.version ≡ st.version + 1 = ground (arith, moved.next) in
          let ih = Accepts-version st1 st2 ops rest (ground (arith, next)) in
          ground (arith, next, ih, Moved-answer st st1 o moved)
    ]

ok_puts_at-below :
    (v : ℕ) (st st2 : KvState) (ops : List Operation)
    → Accepts st ops st2
    → st.version + length ops < 2 ^ 64
    → v < st.version
    → ok_puts_at v ops ≡ 0
unfolding ok_puts_at
ok_puts_at-below v st st2 [] nothing small below = refl
ok_puts_at-below v st st2 (o ∷ ops) (accepted {st1 = st1} ok rest) small below =
    elim (step_cases st st1 o.input o.output ok) [
      | inl kept ↦
          let same : st1.version ≡ st.version = ap (λ (s : KvState). s.version) kept.same in
          ground (
            arith,
            ok_puts_at-below v st1 st2 ops rest (ground (arith, same)) (ground (arith, same)),
            Kept-not_ok st st1 o kept,
          )
      | inr moved ↦
          let next : st1.version ≡ st.version + 1 = ground (arith, moved.next) in
          ground (
            arith,
            moved.at_version,
            ok_puts_at-below v st1 st2 ops rest (ground (arith, next)) (ground (arith, next)),
          )
    ]

-- In an accepted sequence at most one put at a version is answered with OK, as long as the version
-- does not wrap.
pub Accepts-ok_puts_at :
    (v : ℕ) (st st2 : KvState) (ops : List Operation)
    → Accepts st ops st2
    → st.version + length ops < 2 ^ 64
    → ok_puts_at v ops ≤ 1
unfolding ok_puts_at
Accepts-ok_puts_at v st st2 [] nothing small = omega arith
Accepts-ok_puts_at v st st2 (o ∷ ops) (accepted {st1 = st1} ok rest) small =
    elim (step_cases st st1 o.input o.output ok) [
      | inl kept ↦
          let same : st1.version ≡ st.version = ap (λ (s : KvState). s.version) kept.same in
          ground (
            arith,
            Accepts-ok_puts_at v st1 st2 ops rest (ground (arith, same)),
            Kept-not_ok st st1 o kept,
          )
      | inr moved ↦
          let next : st1.version ≡ st.version + 1 = ground (arith, moved.next) in
          ground (
            arith,
            moved.at_version,
            Accepts-ok_puts_at v st1 st2 ops rest (ground (arith, next)),
            ok_puts_at-below v st1 st2 ops rest (ground (arith, next)),
          )
    ]
