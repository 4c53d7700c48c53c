-- ===== src/Annotation/Sorting.antt =====
-- annotateFault's loop: which list a server comes into.
use mit.Base.{
  get_elem?-below, ℕ, zero, suc, ◌+◌, ◌≤◌, ◌<◌, Bool, false, not, ◌&&◌, ◌||◌, some, List, [], ◌∷◌,
  ◌++◌, if◌then◌else◌, ◌==◌, nat_eq, nat_beq_iff, length, get_elem?, contains, ◌≡◌, refl, ◌∙◌,
  arith, subst,
}
use mit.Base.Exec.{returns}
use mit.Annotation.Framework.{FrameworkInfo, Sorted, sort_servers}

contains-append :
    (x : ℕ) (xs : List ℕ) (y : ℕ) → contains x (xs ++ y ∷ []) ≡ (contains x xs || x == y)
unfolding contains
contains-append x [] y = ground arith
contains-append x (z ∷ xs) y = ground (arith, contains-append x xs y)

-- What annotateFault writes of server `id`.
pub record IsSorted (s : Sorted) (id : ℕ) (connected down : Bool) : Type 0 where
  pub in_crashes : contains id s.crashes ≡ down
  pub in_conn : contains id s.conn ≡ (not down && connected)
  pub in_alone : contains id s.alone ≡ (not down && not connected)

abbrev sort_one : Bool → Bool → ℕ → Sorted → Sorted
sort_one c down id out =
    if down
    then record out { crashes = out.crashes ++ id ∷ [] }
    else if c
    then record out { conn = out.conn ++ id ∷ [] }
    else record out { alone = out.alone ++ id ∷ [] }

record Below (k : ℕ) (out s : Sorted) : Type 0 where
  crashes : (id : ℕ) → id < k → contains id s.crashes ≡ contains id out.crashes
  conn : (id : ℕ) → id < k → contains id s.conn ≡ contains id out.conn
  alone : (id : ℕ) → id < k → contains id s.alone ≡ contains id out.alone

record Fresh (k : ℕ) (out : Sorted) : Type 0 where
  crashes : (id : ℕ) → k ≤ id → contains id out.crashes ≡ false
  conn : (id : ℕ) → k ≤ id → contains id out.conn ≡ false
  alone : (id : ℕ) → k ≤ id → contains id out.alone ≡ false

sort_one-Fresh :
    (c down : Bool) (k : ℕ) (out : Sorted) → Fresh k out → Fresh (suc k) (sort_one c down k out)
sort_one-Fresh c down k out f = record {
  crashes =
      λ id le. ground (arith, contains-append id out.crashes k, f.crashes id, nat_beq_iff id k);
  conn = λ id le. ground (arith, contains-append id out.conn k, f.conn id, nat_beq_iff id k);
  alone = λ id le. ground (arith, contains-append id out.alone k, f.alone id, nat_beq_iff id k);
}

sort_one-IsSorted :
    (c down : Bool) (k : ℕ) (out : Sorted) → Fresh k out → IsSorted (sort_one c down k out) k c down
sort_one-IsSorted c down k out f = record {
  in_crashes = ground (arith, contains-append k out.crashes k, f.crashes k, nat_beq_iff k k);
  in_conn = ground (arith, contains-append k out.conn k, f.conn k, nat_beq_iff k k);
  in_alone = ground (arith, contains-append k out.alone k, f.alone k, nat_beq_iff k k);
}

sort_one-Below : (c down : Bool) (k : ℕ) (out : Sorted) → Below k out (sort_one c down k out)
sort_one-Below c down k out = record {
  crashes = λ id lt. ground (arith, contains-append id out.crashes k, nat_beq_iff id k);
  conn = λ id lt. ground (arith, contains-append id out.conn k, nat_beq_iff id k);
  alone = λ id lt. ground (arith, contains-append id out.alone k, nat_beq_iff id k);
}

record HasSorted (connected crashed : List Bool) (k : ℕ) (out s : Sorted) : Type 0 where
  ran : sort_servers connected crashed k out ≡ returns s
  below : Below k out s
  each :
      (j : ℕ) (c down : Bool)
      → get_elem? connected j ≡ some c
      → get_elem? crashed (k + j) ≡ some down
      → IsSorted s (k + j) c down

each-cons :
    (c down : Bool) (connected crashed : List Bool) (k : ℕ) (s : Sorted)
    → get_elem? crashed k ≡ some down
    → IsSorted s k c down
    → ((j : ℕ) (c' down' : Bool)
        → get_elem? connected j ≡ some c'
        → get_elem? crashed (suc k + j) ≡ some down'
        → IsSorted s (suc k + j) c' down')
    → (j : ℕ) (c' down' : Bool) → get_elem? (c ∷ connected) j ≡ some c'
    → get_elem? crashed (k + j) ≡ some down'
    → IsSorted s (k + j) c' down'
each-cons c down connected crashed k s is_down here later zero c' down' at_c at_d =
    let eq : k + 0 ≡ k = omega arith in
    let same_c : c ≡ c' = cc at_c in
    let same_d : down ≡ down' = cc (is_down, rw eq at at_d) in
    rw eq (subst (λ x. IsSorted s k x down') same_c (subst (IsSorted s k c) same_d here))
each-cons c down connected crashed k s is_down here later (suc j) c' down' at_c at_d =
    let eq : k + suc j ≡ suc k + j = omega arith in rw eq (later j c' down' at_c (rw eq at at_d))

sort_servers-HasSorted :
    (connected crashed : List Bool) (k : ℕ) (out : Sorted)
    → k + length connected ≤ length crashed
    → Fresh k out
    → (s : Sorted) × HasSorted connected crashed k out s
unfolding sort_servers
sort_servers-HasSorted [] crashed k out le f = (
  out,
  record {
    ran = refl;
    below = record { crashes = λ id lt. refl; conn = λ id lt. refl; alone = λ id lt. refl };
    each = λ j c down e. cc e;
  },
)
sort_servers-HasSorted (c ∷ connected) crashed k out le f =
    let (down, is_down) = get_elem?-below crashed k (omega arith) in
    let (s, ih) =
      sort_servers-HasSorted connected crashed (suc k) (sort_one c down k out) (omega arith)
        (sort_one-Fresh c down k out f) in
    let here = sort_one-IsSorted c down k out f in
    let step = sort_one-Below c down k out in
    (
      s,
      record {
        ran = ground (arith, is_down, ih.ran);
        below = record {
          crashes = λ id lt. ih.below.crashes id (omega arith) ∙ step.crashes id lt;
          conn = λ id lt. ih.below.conn id (omega arith) ∙ step.conn id lt;
          alone = λ id lt. ih.below.alone id (omega arith) ∙ step.alone id lt;
        };
        each =
            each-cons c down connected crashed k s is_down
              (record {
                in_crashes = ih.below.crashes k (omega arith) ∙ here.in_crashes;
                in_conn = ih.below.conn k (omega arith) ∙ here.in_conn;
                in_alone = ih.below.alone k (omega arith) ∙ here.in_alone;
              })
              ih.each;
      },
    )

-- What is kept of the framework's view: one flag of each kind for each server.
pub record IsWellFormed (f : FrameworkInfo) : Type 0 where
  pub connected_size : length f.connected ≡ f.nservers
  pub crashed_size : length f.crashed ≡ f.nservers

-- annotateFault's loop puts every server into the one list that it belongs in: the crashed ones,
-- else the connected ones, else those that are alone.
pub sort_servers-IsSorted :
    (f : FrameworkInfo)
    → IsWellFormed f
    → (s : Sorted) × (sort_servers f.connected f.crashed 0
          (record { alone = []; conn = []; crashes = [] })
        ≡ returns s)
      × ((id : ℕ) (c down : Bool)
          → get_elem? f.connected id ≡ some c
          → get_elem? f.crashed id ≡ some down
          → IsSorted s id c down)
unfolding contains
sort_servers-IsSorted f wf =
    let (s, h) =
      sort_servers-HasSorted f.connected f.crashed 0
        (record { alone = []; conn = []; crashes = [] })
        (omega (arith, wf.connected_size, wf.crashed_size))
        (record { crashes = λ id le. refl; conn = λ id le. refl; alone = λ id le. refl }) in
    (
      s,
      h.ran,
      λ id c down at_c at_d.
          let eq : 0 + id ≡ id = omega arith in rw eq at (h.each id c down at_c (rw eq at_d)),
    )
