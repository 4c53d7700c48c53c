-- ===== src/KvTest/Puts.antt =====
-- The loops that put until they succeed, over a clerk whose server keeps its promises.
use mit.Base.{
  ℕ, zero, suc, ◌+◌, ◌%◌, ◌^◌, ◌<◌, String, true, false, some, ◌==◌, nat_eq, string_eq, nat_beq_iff,
  ◌≡◌, refl, ◌≢◌, arith,
}
use mit.Base.Exec.{returns}
use mit.KvTest.{
  Clerk, Json, Test, next_version, put, get, put_at_least_once, put_json, put_at_least_once_json,
  check_get,
}

-- What a key/value server promises of a clerk that no other clerk disturbs: the version of a key is 0
-- while the key is missing, a put takes effect at the key's version, and is refused at an older one.
pub record Serves {S : Type 0} (ck : Clerk S) : Type 0 where
  pub version : String → S → ℕ
  pub value : String → S → String
  pub put_ok : (key v : String) (s : S) → (ck.put key v (version key s) s).1 ≡ "OK"
  pub put_version :
      (key v : String) (s : S)
      → version key (ck.put key v (version key s) s).0 ≡ (version key s + 1) % 2 ^ 64
  pub put_value : (key v : String) (s : S) → value key (ck.put key v (version key s) s).0 ≡ v
  pub old_refused :
      (key v : String) (ver : ℕ) (s : S)
      → ver < version key s
      → (ck.put key v ver s).1 ≡ "ErrVersion"
  pub old_keeps :
      (key v : String) (ver : ℕ) (s : S)
      → ver < version key s
      → (version key (ck.put key v ver s).0 ≡ version key s)
        × (value key (ck.put key v ver s).0 ≡ value key s)
  pub get_found :
      (key : String) (s : S)
      → 0 < version key s
      → ((ck.get key s).1 ≡ value key s)
        × ((ck.get key s).2 ≡ version key s)
        × ((ck.get key s).3 ≡ "OK")
  pub get_keeps :
      (key k : String) (s : S)
      → (version k (ck.get key s).0 ≡ version k s) × (value k (ck.get key s).0 ≡ value k s)
  pub put_keeps_others :
      (key k v : String) (ver : ℕ) (s : S)
      → k ≢ key
      → version k (ck.put key v ver s).0 ≡ version k s

pub is_ok : (err : String) → err ≡ "OK" → (err == "OK") ≡ true
is_ok err h = rw h refl

pub is_old :
    (err : String)
    → err ≡ "ErrVersion"
    → ((err == "OK") ≡ false) × ((err == "ErrMaybe") ≡ false) × ((err == "ErrVersion") ≡ true)
is_old err h = (rw h refl, rw h refl, rw h refl)

module _ {S : Type 0} (ck : Clerk S) (sv : Serves ck) where
  open sv use {
    version, value, put_ok, put_version, put_value, old_refused, old_keeps, get_found, get_keeps,
  }

  -- From a version that is `n` puts behind, PutAtLeastOnce returns after `n + 1` puts. The value is
  -- put at the key's version, which is what it returns the next of; the version is below the greatest.
  pub put_at_least_once_returns :
      (n : ℕ) (key v : String) (ver me : ℕ) (ts : Test S)
      → ver + n ≡ version key ts.clerk
      → version key ts.clerk + 1 < 2 ^ 64
      → (ts' : Test S) × (put_at_least_once ck (suc n) key v ver me ts
          ≡ returns (ts', version key ts.clerk + 1))
        × (version key ts'.clerk ≡ version key ts.clerk + 1)
        × (value key ts'.clerk ≡ v)
  unfolding put_at_least_once put
  put_at_least_once_returns zero key v ver me ts at small =
      let eq : ver ≡ version key ts.clerk = omega arith in
      rw eq (
        (put ck key v (version key ts.clerk) me ts).0,
        ground (arith, is_ok _ (put_ok key v ts.clerk)),
        ground (arith, put_version key v ts.clerk),
        put_value key v ts.clerk,
      )
  put_at_least_once_returns (suc n) key v ver me ts at small =
      let ts1 = (put ck key v ver me ts).0 in
      let below : ver < version key ts.clerk = omega arith in
      let (same, _) = old_keeps key v ver ts.clerk below in
      let (ts', ran, ver', val') =
        put_at_least_once_returns n key v (ver + 1) me ts1 (omega (arith, same))
          (omega (arith, same)) in
      let step : next_version ver ≡ ver + 1 = omega arith in
      (
        ts',
        ground (arith, is_old _ (old_refused key v ver ts.clerk below), step, ran, same),
        omega (arith, same, ver'),
        val',
      )

  -- A value that PutAtLeastOnce has put is what CheckGet finds, with the version that it returned.
  pub check_get-put_at_least_once :
      (n : ℕ) (key v : String) (ver me : ℕ) (ts : Test S)
      → ver + n ≡ version key ts.clerk
      → version key ts.clerk + 1 < 2 ^ 64
      → (ts1 ts' : Test S) × (put_at_least_once ck (suc n) key v ver me ts
          ≡ returns (ts1, version key ts.clerk + 1))
        × (check_get ck key v (version key ts.clerk + 1) ts1 ≡ returns ts')
  unfolding check_get get
  check_get-put_at_least_once n key v ver me ts at small =
      let (ts1, ran, ver1, val1) = put_at_least_once_returns n key v ver me ts at small in
      let (got_val, got_ver, got_err) = get_found key ts1.clerk (omega (arith, ver1)) in
      (
        ts1,
        (get ck key 0 ts1).0,
        ran,
        ground (
          arith,
          got_val,
          got_ver,
          is_ok _ got_err,
          val1,
          ver1,
          string_eq.beq_iff (ck.get key ts1.clerk).1 v,
          nat_beq_iff (ck.get key ts1.clerk).2 (version key ts.clerk + 1),
        ),
      )

  -- PutAtLeastOnceJson on a key that is there puts nothing: its put at version 0 is refused, and it
  -- returns the version that it was given, as if it had succeeded.
  pub put_at_least_once_json_refused :
      {A : Type 0} (json : Json A) (fuel : ℕ) (key text : String) (a : A) (ver me : ℕ) (ts : Test S)
      → json.marshal a ≡ some text
      → 0 < version key ts.clerk
      → (ts' : Test S) × (put_at_least_once_json ck json (suc fuel) key a ver me ts
          ≡ returns (ts', ver))
        × (version key ts'.clerk ≡ version key ts.clerk)
        × (value key ts'.clerk ≡ value key ts.clerk)
  unfolding put_at_least_once_json put_json put
  put_at_least_once_json_refused json fuel key text a ver me ts is_text there = (
    (put ck key text 0 me ts).0,
    ground (arith, is_text, is_old _ (old_refused key text 0 ts.clerk there)),
    (old_keeps key text 0 ts.clerk there).0,
    (old_keeps key text 0 ts.clerk there).1,
  )
