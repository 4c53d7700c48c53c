-- ===== src/KvTest/Concurrent.antt =====
-- CheckPutConcurrent: the count of puts against the version, for a linearizable history.
use mit.Base.{
  ℕ, ◌+◌, ◌%◌, ◌^◌, ◌≤◌, ◌<◌, String, Bool, true, false, some, List, [], ◌∷◌, ◌==◌, nat_eq,
  string_eq, nat_beq_iff, length, ◌≡◌, refl, inl, inr, arith, Bool-cases,
}
use mit.Base.Exec.{returns}
use mit.Models.{Operation, KvState, init}
use mit.Models.Versions.{Accepts, puts, Accepts-version}
use mit.KvTest.{Clerk, Json, Test, get, get_json, EntryV, ClntRes, sum_res, check_put_concurrent}

puts_few : (ops : List Operation) → puts "OK" ops + puts "ErrMaybe" ops ≤ length ops
unfolding puts
puts_few [] = omega arith
puts_few (o ∷ ops) = elim (Bool-cases (o.output.err == "OK")) [
  | inl ok ↦
      let other : (o.output.err == "ErrMaybe") ≡ false =
        rw ((string_eq.beq_iff o.output.err "OK").0 ok) refl in
      ground (arith, puts_few ops, other)
  | inr not_ok ↦ ground (arith, puts_few ops)
]

abbrev pub no_res : ClntRes
no_res = record { nok = 0; nmaybe = 0 }

-- If the operations on a key can be put in an order that the model accepts from its initial state,
-- and the clients' results count the puts that were answered with OK and with ErrMaybe, then
-- CheckPutConcurrent passes: a reliable network leaves no ErrMaybe, and its final Get reads an
-- EntryV at the version that the order ends with. There are fewer operations than versions.
pub check_put_concurrent-Accepts :
    {S : Type 0} (ck : Clerk S) (json : Json EntryV)
    → (client : ℕ) (key : String) (rs : List ClntRes) (reliable : Bool) (ts : Test S)
    → (ops : List Operation) (st : KvState) (val : String) (e : EntryV) (s' : S)
    → Accepts init ops st
    → length ops < 2 ^ 64
    → (sum_res rs no_res).nok ≡ puts "OK" ops
    → (sum_res rs no_res).nmaybe ≡ puts "ErrMaybe" ops
    → (reliable ≡ true → puts "ErrMaybe" ops ≡ 0)
    → ck.get key ts.clerk ≡ (s', val, st.version, "OK")
    → json.unmarshal val ≡ some e
    → (ts' : Test S) × (check_put_concurrent ck json client key rs no_res reliable ts
        ≡ returns (sum_res rs no_res, ts'))
unfolding check_put_concurrent get_json get init
check_put_concurrent-Accepts ck json client key rs reliable ts ops st val e s' acc small ok maybe
      clean got decoded =
    let (low, high) = Accepts-version init st ops acc (omega arith) in
    let few = puts_few ops in
    let ts1 = (get ck key client ts).0 in
    elim (Bool-cases reliable) [
      | inl on ↦
          let exact : st.version ≡ (sum_res rs no_res).nok =
            omega (arith, low, high, ok, clean on) in
          let bound : (sum_res rs no_res).nok < 2 ^ 64 = omega (arith, few, ok) in
          (
            ts1,
            rw got (
                ground (
                  arith,
                  decoded,
                  exact,
                  bound,
                  nat_beq_iff st.version ((sum_res rs no_res).nok % 2 ^ 64),
                )),
          )
      | inr off ↦
          let bound : st.version ≤ (sum_res rs no_res).nok + (sum_res rs no_res).nmaybe =
            omega (arith, low, high, ok, maybe) in
          let fits : (sum_res rs no_res).nok + (sum_res rs no_res).nmaybe < 2 ^ 64 =
            omega (arith, few, ok, maybe) in
          (ts1, rw got (ground (arith, decoded, bound, fits)))
    ]
