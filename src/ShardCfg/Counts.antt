-- ===== src/ShardCfg/Counts.antt =====
-- How many shards each group has: the map of counts, and what a move changes.
use mit.Base.{
  ℕ, ◌+◌, ◌-◌, ◌≤◌, ◌<◌, ◌≡◌, refl, ◌≢◌, true, List, [], ◌∷◌, arith, or_else, if◌then◌else◌, ◌==◌,
  Bool-cases, inl, inr, length, contains, count, All,
}
use mit.Base.Int.{int_eq, beq_ℤ_iff}
use mit.Base.Maps.{Map, lookup, insert, lookup-insert}
use mit.ShardCfg.{Tgid, tally, counts_at, move_one}

tally-add :
    (gs : List Tgid) (m : Map Tgid ℕ) (g : Tgid)
    → counts_at (tally gs m) g ≡ count g gs + counts_at m g
unfolding tally count
tally-add [] m g = omega arith
tally-add (x ∷ gs) m g = ground (
  arith,
  tally-add gs (insert x (or_else (lookup x m) 0 + 1) m) g,
  lookup-insert x g (or_else (lookup x m) 0 + 1) m,
  beq_ℤ_iff g x,
)

-- `counts[g]` is the number of shards of group `g`.
pub counts_at-tally : (gs : List Tgid) (g : Tgid) → counts_at (tally gs []) g ≡ count g gs
unfolding lookup
counts_at-tally gs g = omega (arith, tally-add gs [] g)

pub count-le-length : (g : Tgid) (gs : List Tgid) → count g gs ≤ length gs
unfolding count
count-le-length g [] = omega arith
count-le-length g (x ∷ gs) = ground (arith, count-le-length g gs)

-- What a move of one shard from `mg` to `lg` does to every count.
pub count-move_one :
    (mg lg : Tgid) (gs : List Tgid) (g : Tgid)
    → mg ≢ lg
    → 0 < count mg gs
    → count g (move_one mg lg gs)
      ≡ (if g == mg then count mg gs - 1 else if g == lg then count lg gs + 1 else count g gs)
unfolding count move_one
count-move_one mg lg [] g ne h = absurd (omega arith)
count-move_one mg lg (x ∷ gs) g ne h = ground (
  arith,
  beq_ℤ_iff x mg,
  beq_ℤ_iff mg x,
  beq_ℤ_iff g mg,
  beq_ℤ_iff g lg,
  beq_ℤ_iff g x,
  beq_ℤ_iff lg x,
  beq_ℤ_iff mg lg,
  count-move_one mg lg gs g ne,
)

pub length-move_one : (mg lg : Tgid) (gs : List Tgid) → length (move_one mg lg gs) ≡ length gs
unfolding move_one
length-move_one mg lg [] = refl
length-move_one mg lg (x ∷ gs) = ground (arith, length-move_one mg lg gs)

-- The shards stay in the groups of `ks` when `lg` is one of them.
pub All-move_one :
    (ks : List Tgid) (mg lg : Tgid) (gs : List Tgid)
    → contains lg ks ≡ true
    → All (λ g. contains g ks ≡ true) gs
    → All (λ g. contains g ks ≡ true) (move_one mg lg gs)
unfolding move_one
All-move_one ks mg lg [] h a = tt
All-move_one ks mg lg (x ∷ gs) h a = elim (Bool-cases (x == mg)) [
  | inl e ↦ rw e (h, a.1)
  | inr e ↦ rw e (a.0, All-move_one ks mg lg gs h a.1)
]

pub count_pos : (g : Tgid) (gs : List Tgid) → contains g gs ≡ true → 0 < count g gs
unfolding contains count
count_pos g [] h = cc
count_pos g (x ∷ gs) h = ground (arith, count_pos g gs)
