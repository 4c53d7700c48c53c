-- ===== src/Groups/Makes.antt =====
-- makeSrvGrp with new names for the ends.
use mit.Base.Int.{ℤ}
use mit.Base.{
  ℕ, zero, suc, ◌+◌, ◌≤◌, ◌<◌, String, false, none, some, List, [], ◌∷◌, ◌==◌, nat_eq, string_eq,
  length, get_elem?, All, ◌≡◌, refl, ap, ◌∙◌, inl, inr, arith, Bool-cases,
}
use mit.Base.Maps.{has}
use mit.Base.Exec.{returns}
use mit.Labrpc.{Network}
use mit.Groups.{Server}
use mit.Groups.Ends.{AreApart}
use mit.Groups.Restart.{AreFresh, make_ends_returns}
use mit.Groups.Servers.{names_from, make_server, make_servers, size_of}

pub length-names_from : (rand : ℕ → String) (j left : ℕ) → length (names_from rand j left) ≡ left
unfolding names_from
length-names_from rand j zero = refl
length-names_from rand j (suc left) = ap suc (length-names_from rand (suc j) left)

pub get_elem?-names_from :
    (rand : ℕ → String) (j left k : ℕ)
    → k < left
    → get_elem? (names_from rand j left) k ≡ some (rand (j + k))
unfolding names_from
get_elem?-names_from rand j zero k h = absurd (omega arith)
get_elem?-names_from rand j (suc left) zero h = ap (λ (n : ℕ). some (rand n)) (omega arith)
get_elem?-names_from rand j (suc left) (suc k) h =
    get_elem?-names_from rand (suc j) left k (omega arith)
    ∙ ap (λ (n : ℕ). some (rand n)) (omega arith)

-- A server that makeServer has made.
abbrev pub IsMade : ℕ → Server → Type 0
IsMade n s = (s.saved ≡ none) × (size_of s.end_names ≡ n)

-- `x` is none of the names for the servers `i` to `i + left - 1`.
abbrev pub IsOther : ℕ → (ℕ → ℕ → String) → ℕ → ℕ → String → Type 0
IsOther n rand i left x = (k l : ℕ) → i ≤ k → k < i + left → l < n → (x == rand k l) ≡ false

-- No end has one of these names.
abbrev pub AreUnused : ℕ → (ℕ → ℕ → String) → ℕ → ℕ → Network → Type 0
AreUnused n rand i left net =
    (k l : ℕ) → i ≤ k → k < i + left → l < n → has (rand k l) net.ends ≡ false

module _ (n : ℕ) (rand : ℕ → ℕ → String) (apart : AreApart n rand) where
  pub fresh_at :
      (i left : ℕ) (net : Network)
      → i < n
      → AreUnused n rand i (suc left) net
      → AreFresh (rand i) 0 n net
  fresh_at i left net li unused = record {
    new = λ k lo hi. unused i k (omega arith) (omega arith) (omega arith);
    apart = λ k l lo hi lo' hi' e. (apart i k i l li (omega arith) li (omega arith) e).1;
  }

  -- The names of the later servers are other ones than those of server `i`.
  pub later_other :
      (i k l : ℕ)
      → i < k
      → k < n
      → l < n
      → (m : ℕ) → 0 ≤ m
      → m < 0 + n
      → (rand k l == rand i m) ≡ false
  later_other i k l lt lk ll m lo hi = elim (Bool-cases (rand k l == rand i m)) [
    | inr e ↦ e
    | inl e ↦
        let same : k ≡ i =
          (apart k l i m lk ll (omega arith) (omega arith)
            ((string_eq.beq_iff (rand k l) (rand i m)).0 e)).0 in
        absurd (omega arith)
  ]

  pub make_servers_returns :
      (gid : ℤ) (i left : ℕ) (net : Network)
      → i + left ≤ n
      → AreUnused n rand i left net
      → (srvs : List Server) × (net' : Network) × (make_servers gid n rand i left net
          ≡ returns (srvs, net'))
        × (length srvs ≡ left)
        × All (IsMade n) srvs
        × ((x : String) → IsOther n rand i left x → has x net'.ends ≡ has x net.ends)
  unfolding make_servers make_server
  make_servers_returns gid i zero net few unused = ([], net, refl, refl, tt, λ x h. refl)
  make_servers_returns gid i (suc left) net few unused =
      let (ends, net1, ran1, same, off, all_off, others) =
        make_ends_returns gid (rand i) 0 n net (fresh_at i left net (omega arith) unused) in
      let s : Server = record {
        saved = none;
        svcs = none;
        end_names = some (names_from (rand i) 0 n);
        clnt_ends = ends;
      } in
      let (srvs, net2, ran2, size, made, more) =
        make_servers_returns gid (suc i) left net1 (omega arith) (λ k l lo hi ll.
          others (rand k l) (later_other i k l (omega arith) (omega arith) ll)
          ∙ unused k l (omega arith) (omega arith) ll) in
      (
        s ∷ srvs,
        net2,
        ground (arith, ran1, ran2),
        ap suc size,
        ((refl, length-names_from (rand i) 0 n), made),
        λ x h.
            more x (λ k l lo hi ll. h k l (omega arith) (omega arith) ll)
            ∙ others x (λ k lo hi. h i k (omega arith) (omega arith) (omega arith)),
      )
