-- ===== src/Shardkv/Tester.antt =====
-- The groups of the tester while groups join and leave.
use mit.Base.{
  ℕ, ◌≡◌, ◌≤◌, Bool, true, false, List, [], ◌∷◌, ◌==◌, string_eq, nat_eq, length, contains,
  nat_beq_iff, inl, inr, arith, Bool-cases,
}
use mit.Base.Int.{ℤ, pos, int_eq}
use mit.Base.Maps.{lookup, has}
use mit.Base.Exec.{returns}
use mit.Labrpc.{ClientEnd}
use mit.Groups.Ends.{AreApart}
use mit.Groups.Restart.{HasNoNil}
use mit.Config.{Config, make_group_start}
use mit.Config.Starts.{IsRunning, make_group_start-IsMade}
use mit.Shardkv.{Env, nsrv}

-- All names that are drawn differ, and no service is nil.
pub record IsFair (env : Env) : Type 0 where
  pub differ :
      (b c : Bool) (g h i k j l : ℕ)
      → env.draw b g i j ≡ env.draw c h k l
      → (b ≡ c) × (g ≡ h) × (i ≡ k) × (j ≡ l)
  pub starts : (ends : List ClientEnd) (g : ℤ) (i p : ℕ) → HasNoNil (env.mks ends g i p)

module _ (env : Env) where
  -- No end has a name that is drawn for one of the groups.
  abbrev pub AreUndrawn : List ℕ → Config → Type 0
  AreUndrawn gids cfg =
      (b : Bool) (g i j : ℕ) → contains g gids ≡ true → has (env.draw b g i j) cfg.net.ends ≡ false

  abbrev pub AreRunning : List ℕ → Config → Type 0
  AreRunning gids cfg =
      (g : ℕ) → contains g gids ≡ true → IsRunning nsrv (env.draw true g) (pos g) cfg

  module _ (fair : IsFair env) where
    pub draw-apart : (b : Bool) (g : ℕ) → AreApart nsrv (env.draw b g)
    draw-apart b g i j k l li lj lk ll e =
        let (x, y, z, w) = fair.differ b b g g i k j l e in (z, w)

    -- A name that is drawn for another group.
    other_group :
        (b c : Bool) (g h i k j l : ℕ)
        → (g == h) ≡ false
        → (env.draw b g i j == env.draw c h k l) ≡ false
    other_group b c g h i k j l ne = elim (Bool-cases (env.draw b g i j == env.draw c h k l)) [
      | inr e ↦ e
      | inl e ↦
          let same : g ≡ h =
            (fair.differ b c g h i k j l
              ((string_eq.beq_iff (env.draw b g i j) (env.draw c h k l)).0 e)).1 in
          absurd (ground (arith, nat_beq_iff g h, same, ne))
    ]

    other_time : (g i k j l : ℕ) → (env.draw true g i j == env.draw false g k l) ≡ false
    other_time g i k j l = elim (Bool-cases (env.draw true g i j == env.draw false g k l)) [
      | inr e ↦ e
      | inl e ↦
          let same : true ≡ false =
            (fair.differ true false g g i k j l
              ((string_eq.beq_iff (env.draw true g i j) (env.draw false g k l)).0 e)).0 in
          absurd (cc same)
    ]

    -- MakeGroupStart of group `gid`, and what it leaves for the others.
    pub start_group-IsMade :
        (gid : ℕ) (cfg : Config)
        → AreUndrawn (gid ∷ []) cfg
        → (cfg' : Config) × (make_group_start
              (pos gid)
              nsrv
              env.mks
              (env.draw false gid)
              (env.draw true gid)
              (env.server_obj gid)
              cfg
            ≡ returns cfg')
          × IsRunning nsrv (env.draw true gid) (pos gid) cfg'
          × ((g : ℤ) → (g == pos gid) ≡ false → lookup g cfg'.grps ≡ lookup g cfg.grps)
          × (length cfg.persisters ≤ length cfg'.persisters)
          × ((b : Bool) (g i j : ℕ)
              → (g == gid) ≡ false
              → has (env.draw b g i j) cfg'.net.ends ≡ has (env.draw b g i j) cfg.net.ends)
    unfolding contains
    start_group-IsMade gid cfg new =
        let here : contains gid (gid ∷ []) ≡ true = ground (arith, nat_beq_iff gid gid) in
        let (cfg', ran, made) =
          make_group_start-IsMade nsrv (env.draw false gid) (env.draw true gid) (pos gid) env.mks
            (env.server_obj gid) cfg (draw-apart false gid) (draw-apart true gid) fair.starts
            (λ k l lo hi ll. new false gid k l here) (λ k l lo hi ll. new true gid k l here)
            (λ k l i j. other_time gid k i l j) in
        (
          cfg',
          ran,
          made.running,
          made.groups,
          made.more,
          λ b g i j ne.
              made.ends (env.draw b g i j) (λ k l lo hi ll. other_group b false g gid i k j l ne)
                (λ k l lo hi ll. other_group b true g gid i k j l ne),
        )
