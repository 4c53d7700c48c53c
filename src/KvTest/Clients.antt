-- ===== src/KvTest/Clients.antt =====
-- OnePut and OneClientPut for a client that has the server to itself.
use mit.Base.{
  ℕ, suc, ◌+◌, ◌^◌, ◌≤◌, ◌<◌, String, true, some, List, [], ◌∷◌, if◌then◌else◌, or_else, ◌==◌,
  nat_eq, string_eq, nat_beq_iff, length, ◌≡◌, refl, sym, ◌∙◌, ◌≢◌, inl, inr, arith, Bool-cases, ap,
  subst, ne_of_beq-false,
}
use mit.Base.Maps.{Map, lookup, insert, lookup-insert}
use mit.Base.Exec.{returns}
use mit.KvTest.{
  Clerk, Json, Test, put, get, put_json, get_json, one_put, EntryV, ClntRes, client_put,
  client_puts, start_versions, one_client_put,
}
use mit.KvTest.Puts.{Serves, is_ok, is_old}

-- encoding/json writes what it reads back.
pub record RoundTrips {A : Type 0} (json : Json A) : Type 0 where
  pub text : A → String
  pub marshals : (a : A) → json.marshal a ≡ some (text a)
  pub unmarshals : (a : A) → json.unmarshal (text a) ≡ some a

module _ {S : Type 0} (ck : Clerk S) (sv : Serves ck) (json : Json EntryV)
    (rt : RoundTrips json) where
  open sv use {
    version, value, put_ok, put_version, put_value, old_refused, old_keeps, get_found, get_keeps,
    put_keeps_others,
  }

  record HasPut (key : String) (ts ts' : Test S) : Type 0 where
    moved : version key ts'.clerk ≡ version key ts.clerk + 1
    others : (k : String) → k ≢ key → version k ts'.clerk ≡ version k ts.clerk

  one_put-current :
      (fuel me : ℕ) (key : String) (ts : Test S)
      → version key ts.clerk + 1 < 2 ^ 64
      → (ts' : Test S) × (one_put ck json (suc fuel) me key (version key ts.clerk) ts
          ≡ returns (ts', version key ts.clerk + 1, true))
        × HasPut key ts ts'
  unfolding one_put put_json get_json put get
  one_put-current fuel me key ts small =
      let e : EntryV = record { id = me; v = version key ts.clerk } in
      let ts1 = (put ck key (rt.text e) (version key ts.clerk) me ts).0 in
      let ver1 = put_version key (rt.text e) ts.clerk in
      let val1 = put_value key (rt.text e) ts.clerk in
      let (got_val, got_ver, got_err) = get_found key ts1.clerk (omega (arith, ver1)) in
      let decoded : json.unmarshal (ck.get key ts1.clerk).1 ≡ some e =
        ap json.unmarshal (got_val ∙ val1) ∙ rt.unmarshals e in
      (
        (get ck key me ts1).0,
        ground (
          arith,
          rt.marshals e,
          is_ok _ (put_ok key (rt.text e) ts.clerk),
          decoded,
          is_ok _ got_err,
          got_ver,
          ver1,
          nat_beq_iff me me,
        ),
        record {
          moved = omega (arith, (get_keeps key key ts1.clerk).0, ver1);
          others = λ k ne.
              (get_keeps key k ts1.clerk).0
              ∙ put_keeps_others key k (rt.text e) (version key ts.clerk) ts.clerk ne;
        },
      )

  -- OnePut from an older version first sees the put refused and reads the key, whose value must be
  -- an EntryV, and then puts at the version that it has read.
  pub one_put_returns :
      (me : ℕ) (key : String) (ver : ℕ) (old : EntryV) (ts : Test S)
      → ver ≤ version key ts.clerk
      → (ver < version key ts.clerk → json.unmarshal (value key ts.clerk) ≡ some old)
      → version key ts.clerk + 1 < 2 ^ 64
      → (ts' : Test S) × (one_put ck json 2 me key ver ts
          ≡ returns (ts', version key ts.clerk + 1, true))
        × (version key ts'.clerk ≡ version key ts.clerk + 1)
  unfolding one_put put_json get_json put get
  one_put_returns me key ver old ts le is_old_entry small =
      elim (Bool-cases (ver == version key ts.clerk)) [
        | inl same ↦
            let eq : ver ≡ version key ts.clerk = (nat_beq_iff ver (version key ts.clerk)).0 same in
            let (ts', ran, h) = one_put-current 1 me key ts small in
            (
              ts',
              subst
                  (λ v.
                    one_put ck json 2 me key v ts ≡ returns (ts', version key ts.clerk + 1, true))
                  (sym eq) ran,
              h.moved,
            )
        | inr differs ↦
            let below : ver < version key ts.clerk =
              omega (arith, ne_of_beq-false ver (version key ts.clerk) differs) in
            let e : EntryV = record { id = me; v = ver } in
            let ts1 = (put ck key (rt.text e) ver me ts).0 in
            let ts2 = (get ck key me ts1).0 in
            let kept = old_keeps key (rt.text e) ver ts.clerk below in
            let (got_val, got_ver, got_err) = get_found key ts1.clerk (omega (arith, kept.0)) in
            let decoded : json.unmarshal (ck.get key ts1.clerk).1 ≡ some old =
              ap json.unmarshal (got_val ∙ kept.1) ∙ is_old_entry below in
            let ver2 : version key ts2.clerk ≡ version key ts.clerk =
              (get_keeps key key ts1.clerk).0 ∙ kept.0 in
            let (ts', ran, h) = one_put-current 0 me key ts2 (omega (arith, ver2)) in
            let got : (ck.get key ts1.clerk).2 ≡ version key ts2.clerk =
              got_ver ∙ (kept.0 ∙ sym ver2) in
            let from_read : one_put ck json 1 me key (ck.get key ts1.clerk).2 ts2
                ≡ returns (ts', version key ts.clerk + 1, true) =
              subst
                (λ v.
                  one_put ck json 1 me key v ts2 ≡ returns (ts', version key ts.clerk + 1, true))
                (sym got)
                (subst
                  (λ v.
                    one_put ck json 1 me key (version key ts2.clerk) ts2
                    ≡ returns (ts', v + 1, true))
                  ver2 ran) in
            (
              ts',
              ground (
                arith,
                rt.marshals e,
                is_old _ (old_refused key (rt.text e) ver ts.clerk below),
                decoded,
                is_ok _ got_err,
                from_read,
              ),
              omega (arith, h.moved, ver2),
            )
      ]

  client_puts-all :
      (cli : ℕ) (drawn : List String) (verm : Map String ℕ) (res : ClntRes) (ts : Test S)
      → ((k : String) → or_else (lookup k verm) 0 ≡ version k ts.clerk)
      → ((k : String) → version k ts.clerk + length drawn < 2 ^ 64)
      → (verm' : Map String ℕ) × (ts' : Test S) × (client_puts ck json 1 cli drawn (verm, res, ts)
          ≡ returns (verm', record { nok = res.nok + length drawn; nmaybe = res.nmaybe }, ts'))
        × ((k : String) → or_else (lookup k verm') 0 ≡ version k ts'.clerk)
  unfolding client_puts client_put
  client_puts-all cli [] verm res ts known small =
      let same : res.nok + 0 ≡ res.nok = omega arith in (verm, ts, ground (arith, same), known)
  client_puts-all cli (k ∷ drawn) verm res ts known small =
      let (ts1, ran, h) = one_put-current 0 cli k ts (omega (arith, small k)) in
      let next = version k ts.clerk + 1 in
      let moved_at : (j : String)
          → version j ts1.clerk ≡ (if j == k then next else version j ts.clerk) =
        λ j. elim (Bool-cases (j == k)) [
          | inl mine ↦
              rw mine (ap (λ x. version x ts1.clerk) ((string_eq.beq_iff j k).0 mine) ∙ h.moved)
          | inr other ↦ rw other (h.others j (ne_of_beq-false j k other))
        ] in
      let (verm', ts', rest, known') =
        client_puts-all cli drawn (insert k next verm) (record res { nok = res.nok + 1 }) ts1
          (λ j. ground (arith, moved_at j, lookup-insert k j next verm, known j))
          (λ j. ground (arith, moved_at j, small j, small k)) in
      let from_known : one_put ck json 1 cli k (or_else (lookup k verm) 0) ts
          ≡ returns (ts1, next, true) =
        subst (λ v. one_put ck json 1 cli k v ts ≡ returns (ts1, next, true)) (sym (known k)) ran in
      let total : res.nok + 1 + length drawn ≡ res.nok + suc (length drawn) = omega arith in
      (verm', ts', rw from_known (rw total at rest), known')

  start_versions-lookup :
      (ka : List String) (verm : Map String ℕ) (k : String)
      → or_else (lookup k verm) 0 ≡ 0
      → or_else (lookup k (start_versions ka verm)) 0 ≡ 0
  unfolding start_versions
  start_versions-lookup [] verm k h = h
  start_versions-lookup (x ∷ ka) verm k h =
      start_versions-lookup ka (insert x 0 verm) k (ground (arith, lookup-insert x k 0 verm))

  -- A lone client of a fresh server: every put of OneClientPut is answered with OK at once, whatever
  -- keys it draws, as long as the versions stay below the greatest.
  pub one_client_put-ok :
      (cli : ℕ) (ka drawn : List String) (ts : Test S)
      → ((k : String) → version k ts.clerk ≡ 0)
      → length drawn < 2 ^ 64
      → (ts' : Test S) × (one_client_put ck json 1 cli ka drawn ts
          ≡ returns (record { nok = length drawn; nmaybe = 0 }, ts'))
  unfolding one_client_put lookup
  one_client_put-ok cli ka drawn ts fresh few =
      let (verm', ts', ran, _) =
        client_puts-all cli drawn (start_versions ka []) (record { nok = 0; nmaybe = 0 }) ts
          (λ k. start_versions-lookup ka [] k refl ∙ sym (fresh k)) (λ k. omega (arith, fresh k)) in
      let none_yet : 0 + length drawn ≡ length drawn = omega arith in
      (ts', rw (rw none_yet at ran) refl)
