-- ===== src/Groups/Partitions.antt =====
-- Partition.
use mit.Base.{
  ℕ, ◌<◌, String, true, false, ◌&&◌, ◌||◌, List, [], ◌∷◌, nat_eq, nat_beq_iff, contains, ◌≡◌, refl,
  ◌∙◌, ◌⊎◌, inl, inr, arith, Bool-cases,
}
use mit.Base.Exec.{returns, >>=-eq-returns}
use mit.Groups.{disconnect, connect, ServerGrp, part_loop, partition}
use mit.Groups.Ends.{
  is_up, is_enabled, IsNamed, Keeps, Keeps-refl, Keeps-trans, IsNamed-Keeps, AreApart, AreServers,
}
use mit.Groups.Rounds.{IsRound-of}

-- No server is in both lists.
abbrev pub AreDisjoint : List ℕ → List ℕ → Type 0
AreDisjoint p1 p2 = (i : ℕ) → contains i p1 ≡ true → contains i p2 ≡ false

module _ (n : ℕ) (name : ℕ → ℕ → String) (apart : AreApart n name) where
  -- The loop over `xs`, a part of `mine`.
  record HasLooped (sg sg' : ServerGrp) (xs mine others : List ℕ) : Type 0 where
    keeps : Keeps sg sg'
    ups : (k : ℕ) → is_up sg' k ≡ (contains k xs || is_up sg k)
    joined :
        (k l : ℕ)
        → k < n
        → l < n
        → contains k mine ≡ true
        → contains l mine ≡ true
        → (contains k xs && contains l xs
            || contains k xs && is_up sg l
            || contains l xs && is_up sg k
            || is_enabled (name k l) sg)
          ≡ true
        → is_enabled (name k l) sg' ≡ true
    cut :
        (k l : ℕ)
        → k < n
        → l < n
        → contains k mine ≡ true
        → contains l others ≡ true
        → (contains k xs ≡ true)
          ⊎ ((is_enabled (name k l) sg ≡ false) × (is_enabled (name l k) sg ≡ false))
        → (is_enabled (name k l) sg' ≡ false) × (is_enabled (name l k) sg' ≡ false)
    outside :
        (k l : ℕ)
        → k < n
        → l < n
        → contains k mine ≡ false
        → contains l mine ≡ false
        → is_enabled (name k l) sg' ≡ is_enabled (name k l) sg

  part_loop-HasLooped :
      (xs mine others : List ℕ) (sg : ServerGrp)
      → IsNamed n name sg
      → AreServers n name xs
      → AreServers n name mine
      → AreServers n name others
      → ((i : ℕ) → contains i xs ≡ true → contains i mine ≡ true)
      → AreDisjoint mine others
      → (sg' : ServerGrp) × (part_loop xs mine others sg ≡ returns sg')
        × HasLooped sg sg' xs mine others
  unfolding part_loop contains
  part_loop-HasLooped [] mine others sg h lxs lmine lothers sub dis = (
    sg,
    refl,
    record {
      keeps = Keeps-refl sg;
      ups = λ k. refl;
      joined = λ k l lk ll mk ml start. ground arith;
      cut = λ k l lk ll mk ol start. elim start [ inl e ↦ absurd (cc e) | inr e ↦ e ];
      outside = λ k l lk ll mk ml. refl;
    },
  )
  part_loop-HasLooped (x ∷ xs) mine others sg h lxs lmine lothers sub dis =
      let (sg1, ran1, r) = IsRound-of n name apart x mine others sg h lxs.0 lmine lothers in
      let (sg', ran, ih) =
        part_loop-HasLooped xs mine others sg1 (IsNamed-Keeps n name sg sg1 r.keeps h) lxs.1 lmine
          lothers (λ i m. sub i (ground arith)) dis in
      let x_mine : contains x mine ≡ true = sub x (ground (arith, nat_beq_iff x x)) in
      let (sg0, gone, back) = >>=-eq-returns (disconnect x others sg) (connect x mine) ran1 in
      (
        sg',
        ground (arith, gone, back, ran),
        record {
          keeps = Keeps-trans sg sg1 sg' r.keeps ih.keeps;
          ups = λ k. ground (arith, ih.ups k, r.ups k);
          joined = λ k l lk ll mk ml start.
              ih.joined k l lk ll mk ml
                (ground (arith, r.ends k l lk ll, r.ups k, r.ups l, dis k mk, dis l ml, start));
          cut = λ k l lk ll mk ol start. ih.cut k l lk ll mk ol (elim (Bool-cases (contains k xs)) [
            | inl later ↦ inl later
            | inr now ↦
                let not_mine : contains l mine ≡ false = elim (Bool-cases (contains l mine)) [
                  | inr e ↦ e
                  | inl e ↦ absurd (cc (ol, dis l e))
                ] in
                inr (
                  ground (
                    arith,
                    r.ends k l lk ll,
                    nat_beq_iff l x,
                    nat_beq_iff k x,
                    x_mine,
                    not_mine,
                    start,
                  ),
                  ground (
                    arith,
                    r.ends l k ll lk,
                    nat_beq_iff l x,
                    nat_beq_iff k x,
                    x_mine,
                    not_mine,
                    start,
                  ),
                )
          ]);
          outside = λ k l lk ll mk ml.
              ih.outside k l lk ll mk ml
              ∙ ground (arith, r.ends k l lk ll, nat_beq_iff k x, nat_beq_iff l x, x_mine, mk, ml);
        },
      )

  -- What holds of the ends and the connections after Partition.
  pub record IsPartitioned (p1 p2 : List ℕ) (sg sg' : ServerGrp) : Type 0 where
    pub linked :
        (k l : ℕ)
        → k < n
        → l < n
        → (contains k p1 && contains l p1 || contains k p2 && contains l p2) ≡ true
        → is_enabled (name k l) sg' ≡ true
    pub cut :
        (k l : ℕ)
        → k < n
        → l < n
        → contains k p1 ≡ true
        → contains l p2 ≡ true
        → (is_enabled (name k l) sg' ≡ false) × (is_enabled (name l k) sg' ≡ false)
    pub ups : (k : ℕ) → is_up sg' k ≡ (contains k p1 || contains k p2 || is_up sg k)

  -- Partition of two lists of servers returns, whatever the ends and the connections were before, if
  -- the ends have different names and the lists have no server in common. Two servers of one list are
  -- then linked in both directions, two servers of different lists are not, the servers of the lists
  -- are connected, and the connections of the others are as before.
  pub partition-IsPartitioned :
      (p1 p2 : List ℕ) (sg : ServerGrp)
      → IsNamed n name sg
      → AreServers n name p1
      → AreServers n name p2
      → AreDisjoint p1 p2
      → (sg' : ServerGrp) × (partition p1 p2 sg ≡ returns sg') × IsPartitioned p1 p2 sg sg'
  unfolding partition
  partition-IsPartitioned p1 p2 sg h l1 l2 dis =
      let sid : AreDisjoint p2 p1 =
        λ i m. elim (Bool-cases (contains i p1)) [ inr e ↦ e | inl e ↦ absurd (cc (m, dis i e)) ] in
      let (sg1, ran1, a) = part_loop-HasLooped p1 p1 p2 sg h l1 l1 l2 (λ i m. m) dis in
      let (sg', ran2, b) =
        part_loop-HasLooped p2 p2 p1 sg1 (IsNamed-Keeps n name sg sg1 a.keeps h) l2 l2 l1 (λ i m. m)
          sid in
      (
        sg',
        ground (arith, ran1, ran2),
        record {
          linked = λ k l lk ll same. elim (Bool-cases (contains k p1 && contains l p1)) [
            | inl first ↦
                let mk : contains k p1 ≡ true = ground arith in
                let ml : contains l p1 ≡ true = ground arith in
                b.outside k l lk ll (dis k mk) (dis l ml) ∙ a.joined k l lk ll mk ml (ground arith)
            | inr second ↦
                let mk : contains k p2 ≡ true = ground arith in
                let ml : contains l p2 ≡ true = ground arith in
                b.joined k l lk ll mk ml (ground arith)
          ];
          cut = λ k l lk ll mk ml. let (e1, e2) = b.cut l k ll lk ml mk (inl ml) in (e2, e1);
          ups = λ k. ground (arith, b.ups k, a.ups k);
        },
      )
