-- ===== src/ShardCfg/Assign.antt =====
-- The loop of Rebalance that assigns the shards without a group.
use mit.Base.{
  snoc-append, append_nil, ℕ, suc, ◌<◌, ◌≡◌, refl, sym, ap, ◌∙◌, true, List, [], ◌∷◌, ◌++◌, arith,
  inl, inr, Bool-cases, length, contains, All, set, length-set,
}
use mit.Base.Int.{int_eq}
use mit.Base.Maps.{keys, has, has-contains}
use mit.ShardCfg.{Tgid, ShardConfig, least, assign}
use mit.ShardCfg.Analyze.{analyze-IsAnalysis}

set-append :
    (pre : List Tgid) (g v : Tgid) (gs : List Tgid)
    → set (pre ++ g ∷ gs) (length pre) v ≡ pre ++ v ∷ gs
set-append [] g v gs = refl
set-append (x ∷ pre) g v gs = ap (◌∷◌ x) (set-append pre g v gs)

All-snoc {ℓ} :
    (P : Tgid → Type ℓ) (pre : List Tgid) (g : Tgid) → All P pre → P g → All P (pre ++ g ∷ [])
All-snoc P [] g a h = (h, tt)
All-snoc P (x ∷ pre) g a h = (a.0, All-snoc P pre g a.1 h)

length-snoc : (pre : List Tgid) (g : Tgid) → length (pre ++ g ∷ []) ≡ suc (length pre)
length-snoc [] g = refl
length-snoc (x ∷ pre) g = ap suc (length-snoc pre g)

-- The group that `least` picks exists.
least-mem :
    (c : ShardConfig) (k : Tgid)
    → contains k (keys c.groups) ≡ true
    → length c.shards < 257
    → contains (least c) (keys c.groups) ≡ true
unfolding least
least-mem c k m n = (analyze-IsAnalysis c k m n).least_mem

pub record IsAssigned (c c' : ShardConfig) : Type 0 where
  pub same_num : c'.num ≡ c.num
  pub same_groups : c'.groups ≡ c.groups
  pub same_length : length c'.shards ≡ length c.shards
  pub assigned : All (λ g. contains g (keys c.groups) ≡ true) c'.shards

-- The loop at index `s`: the shards before it are in groups.
pub assign-IsAssigned :
    (gs pre : List Tgid) (s : ℕ) (c : ShardConfig) (k : Tgid)
    → contains k (keys c.groups) ≡ true
    → length c.shards < 257
    → s ≡ length pre
    → c.shards ≡ pre ++ gs
    → All (λ g. contains g (keys c.groups) ≡ true) pre
    → IsAssigned c (assign gs s c)
unfolding assign
assign-IsAssigned [] pre s c k m n e split a = record {
  same_num = refl;
  same_groups = refl;
  same_length = refl;
  assigned = rw (split, append_nil pre) a;
}
assign-IsAssigned (g ∷ gs) pre s c k m n e split a = elim (Bool-cases (has g c.groups)) [
  | inl old ↦ rw old (
      assign-IsAssigned gs (pre ++ g ∷ []) (suc s) c k m n (omega (arith, length-snoc pre g))
        (split ∙ sym (snoc-append pre g gs))
        (All-snoc _ pre g a (sym (has-contains g c.groups) ∙ old)))
  | inr new ↦
      let c1 : ShardConfig = record c { shards = set c.shards s (least c) } in
      let len : length (set c.shards s (least c)) ≡ length c.shards =
        length-set c.shards s (least c) in
      let split1 : set c.shards s (least c) ≡ (pre ++ least c ∷ []) ++ gs =
        ap (λ l. set l s (least c)) split
        ∙ (rw e (set-append pre g (least c) gs) ∙ sym (snoc-append pre (least c) gs)) in
      let r : IsAssigned c1 (assign gs (suc s) c1) =
        assign-IsAssigned gs (pre ++ least c ∷ []) (suc s) c1 k m (omega (arith, len))
          (omega (arith, length-snoc pre (least c))) split1
          (All-snoc _ pre (least c) a (least-mem c k m n)) in
      rw new (record {
        same_num = r.same_num;
        same_groups = r.same_groups;
        same_length = r.same_length ∙ len;
        assigned = r.assigned;
      })
]

-- Where every shard is in a group the loop changes nothing.
pub assign_all :
    (gs : List Tgid) (s : ℕ) (c : ShardConfig)
    → All (λ g. contains g (keys c.groups) ≡ true) gs
    → assign gs s c ≡ c
unfolding assign
assign_all [] s c a = refl
assign_all (g ∷ gs) s c a = rw (has-contains g c.groups, a.0) (assign_all gs (suc s) c a.1)
