-- ===== src/KvTest/Appending.antt =====
-- src/kvtest1/kvtest.go: the clients that append to one key, and the check of what they appended.
use mit.Base.{
  ℕ, zero, suc, ◌+◌, ◌-◌, String, not, none, some, List, [], ◌∷◌, ◌++◌, if◌then◌else◌, or_else, ltb,
  ◌==◌, nat_eq, string_eq, length, get_elem?,
}
use mit.Base.Maps.{Map, lookup, insert}
use mit.Base.Exec.{Exec, returns, fatal, panics, diverges, ◌>>=◌}
use mit.KvTest.{Clerk, ClntRes, Json, Test, get_json, put_json}

-- `entry` and `EntryN`
pub record EntryN : Type 0 where
  pub id : ℕ
  pub n : ℕ

module _ {S : Type 0} (ck : Clerk S) (json : Json (List EntryN)) where
  -- The inner loop of OneClientAppend, on fuel: the client's `i` is put behind the value of "k".
  unfoldable pub append_entry : ℕ → ℕ → ℕ → ClntRes × Test S → Exec (ClntRes × Test S)
  unfolding get_json put_json
  append_entry zero me i st = diverges
  append_entry (suc fuel) me i (res, ts) =
      let again = λ (ts2 : Test S). append_entry fuel me i (res, ts2) in
      get_json ck json "k" me ts >>= λ (g : Test S × ℕ × List EntryN).
      (put_json ck json "k" (g.2 ++ record { id = me; n = i } ∷ []) g.1 me g.0
        >>= λ (r : Test S × String).
            if r.1 == "OK"
            then returns (record res { nok = res.nok + 1 }, r.0)
            else if r.1 == "ErrMaybe"
            then returns (record res { nmaybe = res.nmaybe + 1 }, r.0)
            else again r.0)

  -- OneClientAppend from round `i`, for `rounds` rounds until `done`.
  unfoldable pub client_appends : ℕ → ℕ → ℕ → ℕ → ClntRes × Test S → Exec (ClntRes × Test S)
  unfolding append_entry
  client_appends fuel me i zero st = returns st
  client_appends fuel me i (suc rounds) st =
      append_entry fuel me i st >>= client_appends fuel me (suc i) rounds

  unfoldable pub one_client_append : ℕ → ℕ → ℕ → Test S → Exec (ClntRes × Test S)
  unfolding client_appends
  one_client_append fuel me rounds ts =
      client_appends fuel me 0 rounds (record { nok = 0; nmaybe = 0 }, ts)

-- `expect` and `skipped` of CheckAppends
pub record Seen : Type 0 where
  pub expect : Map ℕ ℕ
  pub skipped : Map ℕ ℕ

abbrev pub at : Map ℕ ℕ → ℕ → ℕ
at m c = or_else (lookup c m) 0

unfoldable pub start_seen : ℕ → ℕ → Seen → Seen
start_seen i zero seen = seen
start_seen i (suc nclnt) seen =
    start_seen (suc i) nclnt
      (record { expect = insert i 0 seen.expect; skipped = insert i 0 seen.skipped })

abbrev pub see_entry : EntryN → Seen → Exec Seen
see_entry e seen =
    let want = at seen.expect e.id in
    if ltb e.n want
    then fatal
    else if want == e.n
    then returns (record seen { expect = insert e.id (want + 1) seen.expect })
    else returns (record {
      expect = insert e.id (e.n + 1) seen.expect;
      skipped = insert e.id (at seen.skipped e.id + (e.n - want)) seen.skipped;
    })

unfoldable pub see_entries : List EntryN → Seen → Exec Seen
see_entries [] seen = returns seen
see_entries (e ∷ es) seen = see_entry e seen >>= see_entries es

-- The loop over `expect` at the end: a client without a result panics.
unfoldable pub check_clients : Map ℕ ℕ → Map ℕ ℕ → List ClntRes → Exec (Unit {0})
check_clients [] skipped rs = returns tt
check_clients ((c, n) ∷ expect) skipped rs =
    let rest = check_clients expect skipped rs in
    elim (get_elem? rs c) [
      | none ↦ panics
      | some r ↦
          if ltb r.nmaybe (at skipped c)
          then fatal
          else if ltb (r.nok + r.nmaybe) n
          then fatal
          else rest
    ]

unfoldable pub check_appends : List EntryN → ℕ → List ClntRes → ℕ → Exec (Unit {0})
unfolding start_seen see_entries check_clients
check_appends es nclnt rs ver =
    see_entries es (start_seen 0 nclnt (record { expect = []; skipped = [] })) >>= λ (seen : Seen).
    if not (length es + 1 == ver) then fatal else check_clients seen.expect seen.skipped rs
