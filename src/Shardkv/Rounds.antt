-- ===== src/Shardkv/Rounds.antt =====
-- joinGroups and leaveGroups with a controller that keeps its promises.
use mit.Base.{
  none, if◌then◌else◌, ℕ, ◌+◌, ◌≤◌, ◌<◌, true, false, List, [], ◌∷◌, ◌==◌, nat_eq, length, contains,
  count, Distinct, All, ◌≡◌, refl, sym, ap, ◌∙◌, inl, inr, arith, Bool-cases, subst, nat_beq_iff,
}
use mit.Base.Int.{ℤ, pos, int_eq, beq_ℤ_iff}
use mit.Base.Exec.{returns}
use mit.ShardCfg
use mit.ShardCfg.{Tgid, ShardConfig, nshards, make_shard_config}
use mit.Shardkv.{
  Ctrler, IsLawful, Test, Env, nsrv, gid1, start_group, setup_kv_service, check_member, join,
  join_groups, leave, leave_groups,
}
use mit.Shardkv.Tester.{IsFair, AreUndrawn, AreRunning, draw-apart, start_group-IsMade}
use mit.Config.{group}
use mit.Config.Starts.{IsRunning, IsRunning-later}
use mit.Config.Exits.{exit_group-IsGone}
use mit.Base.Maps.{lookup}
use mit.Shardkv.Steps.{srv_names, contains-tgids, IsFit, tgids}
use mit.Shardkv.Leave.{without, leave-step}
use mit.Shardkv.Join.{join-step}
use mit.Shardkv.Crowded.{join_crowded}

-- The groups after some have joined.
abbrev pub onto : List ℕ → List ℕ → List ℕ
onto [] gids = gids
onto (gid ∷ news) gids = onto news (gid ∷ gids)

abbrev pub AreNew : List ℕ → List ℕ → Type 0
AreNew [] gids = Unit
AreNew (gid ∷ news) gids = (contains gid gids ≡ false) × AreNew news (gid ∷ gids)

abbrev pub without_all : List ℕ → List ℕ → List ℕ
without_all [] gids = gids
without_all (gid ∷ olds) gids = without_all olds (without gid gids)

-- Each group is there when its turn to leave comes.
abbrev pub CanGo : List ℕ → List ℕ → Type 0
CanGo [] gids = Unit
CanGo (gid ∷ olds) gids = (contains gid gids ≡ true) × (0 < gid) × CanGo olds (without gid gids)

-- The controller's configuration has just the groups `gids`, and passes CheckConfig against them.
pub record IsAt {S : Type 0} (ctrler : Ctrler S) (gids : List ℕ) (ts : Test S) : Type 0 where
  pub fit : IsFit (ctrler.query ts.sck) gids
  pub distinct : Distinct gids

contains-without :
    (gid x : ℕ) (gs : List ℕ) → contains x gs ≡ false → contains x (without gid gs) ≡ false
unfolding contains
contains-without gid x [] h = refl
contains-without gid x (k ∷ gs) h = ground (arith, contains-without gid x gs)

Distinct-without : (gid : ℕ) (gids : List ℕ) → Distinct gids → Distinct (without gid gids)
Distinct-without gid [] d = tt
Distinct-without gid (g ∷ gids) d = elim (Bool-cases (g == gid)) [
  | inl e ↦ rw e (Distinct-without gid gids d.1)
  | inr e ↦ rw e (contains-without gid g gids d.0, Distinct-without gid gids d.1)
]

without_absent : (gid : ℕ) (gs : List ℕ) → contains gid gs ≡ false → without gid gs ≡ gs
unfolding contains
without_absent gid [] h = refl
without_absent gid (g ∷ gs) h =
    ground (arith, without_absent gid gs, nat_beq_iff g gid, nat_beq_iff gid g)

-- Taking off a group that has joined before the others.
without-onto :
    (gid : ℕ) (news gids : List ℕ)
    → contains gid news ≡ false
    → without gid (onto news gids) ≡ onto news (without gid gids)
unfolding contains
without-onto gid [] gids h = refl
without-onto gid (g ∷ news) gids h =
    without-onto gid news (g ∷ gids) (ground (arith, h))
    ∙ ap (onto news) (ground (arith, nat_beq_iff g gid, nat_beq_iff gid g, h))

contains-onto :
    (x : ℕ) (news gids : List ℕ) → contains x gids ≡ true → contains x (onto news gids) ≡ true
unfolding contains
contains-onto x [] gids h = h
contains-onto x (g ∷ news) gids h = contains-onto x news (g ∷ gids) (ground (arith, h))

AreNew-apart :
    (news gids : List ℕ) (x : ℕ)
    → AreNew news gids
    → contains x gids ≡ true
    → contains x news ≡ false
unfolding contains
AreNew-apart [] gids x new m = refl
AreNew-apart (g ∷ news) gids x new m =
    ground (arith, AreNew-apart news (g ∷ gids) x new.1, nat_beq_iff x g, new.0, m)

AreNew-fewer :
    (news xs ys : List ℕ)
    → ((i : ℕ) → contains i ys ≡ true → contains i xs ≡ true)
    → AreNew news xs
    → AreNew news ys
unfolding contains
AreNew-fewer [] xs ys h new = tt
AreNew-fewer (g ∷ news) xs ys h new = (
  elim (Bool-cases (contains g ys)) [ inr e ↦ e | inl e ↦ absurd (cc (h g e, new.0)) ],
  AreNew-fewer news (g ∷ xs) (g ∷ ys) (λ i m. ground (arith, h i, m)) new.1,
)

-- What has joined can leave again, and that leaves what was there before.
leaves_again :
    (news gids : List ℕ)
    → AreNew news gids
    → All (λ g. 0 < g) news
    → CanGo news (onto news gids) × (without_all news (onto news gids) ≡ gids)
unfolding contains
leaves_again [] gids new positive = (tt, refl)
leaves_again (g ∷ news) gids new positive =
    let apart : contains g news ≡ false =
      AreNew-apart news (g ∷ gids) g new.1 (ground (arith, nat_beq_iff g g)) in
    let first : without g (onto news (g ∷ gids)) ≡ onto news gids =
      without-onto g news (g ∷ gids) apart
      ∙ ap (onto news) (ground (arith, nat_beq_iff g g, without_absent g gids, new.0)) in
    let (rest, back) =
      leaves_again news gids (AreNew-fewer news (g ∷ gids) gids (λ i m. ground (arith, m)) new.1)
        positive.1 in
    (
      (
        contains-onto g news (g ∷ gids) (ground (arith, nat_beq_iff g g)),
        positive.0,
        rw first rest,
      ),
      rw first back,
    )

contains-without_self : (gid : ℕ) (gs : List ℕ) → contains gid (without gid gs) ≡ false
unfolding contains
contains-without_self gid [] = refl
contains-without_self gid (k ∷ gs) =
    ground (arith, contains-without_self gid gs, nat_beq_iff gid k, nat_beq_iff k gid)

-- A group that is not there is none of those that can go.
CanGo-absent :
    (olds gids : List ℕ) (g : ℕ)
    → CanGo olds gids
    → contains g gids ≡ false
    → contains g olds ≡ false
unfolding contains
CanGo-absent [] gids g go h = refl
CanGo-absent (gid ∷ olds) gids g go h = elim (Bool-cases (g == gid)) [
  | inl e ↦ absurd (cc (ap (λ (x : ℕ). contains x gids) ((nat_beq_iff g gid).0 e), h, go.0))
  | inr e ↦
      ground (arith, e, CanGo-absent olds (without gid gids) g go.2 (contains-without gid g gids h))
]

other_int : (g h : ℕ) → (g == h) ≡ false → (pos g == pos h) ≡ false
other_int g h ne = ground (arith, nat_beq_iff g h, beq_ℤ_iff (pos g) (pos h), ne)

module _ {S : Type 0} (ctrler : Ctrler S) (lawful : IsLawful ctrler) (env : Env)
    (fair : IsFair env) where
  join_groups-IsAt :
      (news gids : List ℕ) (ts : Test S)
      → IsAt ctrler gids ts
      → AreNew news gids
      → length news + length gids ≤ nshards
      → AreUndrawn env news ts.cfg
      → (ts' : Test S) × (join_groups ctrler env news ts ≡ returns (true, ts'))
        × IsAt ctrler (onto news gids) ts'
        × AreRunning env news ts'.cfg
        × ((g : ℤ) → contains g (tgids news) ≡ false → lookup g ts'.cfg.grps ≡ lookup g ts.cfg.grps)
        × (length ts.cfg.persisters ≤ length ts'.cfg.persisters)
  unfolding join_groups join check_member start_group group contains
  join_groups-IsAt [] gids ts at new few undrawn =
      (ts, refl, at, λ g h. cc h, λ g h. refl, omega arith)
  join_groups-IsAt (gid ∷ news) gids ts at new few undrawn =
      let (cfg1, started, running, groups, more, ends) =
        start_group-IsMade env fair gid ts.cfg (λ b g i j m. undrawn b g i j (ground (arith, m))) in
      let (c, ran, fit, num, member) =
        join-step (ctrler.query ts.sck) gids gid at.fit (new.0, at.distinct) (omega arith) in
      let sck = ctrler.change_config_to c ts.sck in
      let is : ctrler.query sck ≡ c = lawful.query-change c ts.sck num in
      let ts1 : Test S = record ts { sck = sck; cfg = cfg1 } in
      let at1 : IsAt ctrler (gid ∷ gids) ts1 = record {
        fit = subst (λ x. IsFit x (gid ∷ gids)) (sym is) fit;
        distinct = (new.0, at.distinct);
      } in
      let absent : contains gid news ≡ false =
        AreNew-apart news (gid ∷ gids) gid new.1 (ground (arith, nat_beq_iff gid gid)) in
      let undrawn1 : AreUndrawn env news cfg1 = λ b g i j m.
        ends b g i j (elim (Bool-cases (g == gid)) [
          | inr e ↦ e
          | inl e ↦
              absurd (cc (ap (λ (x : ℕ). contains x news) ((nat_beq_iff g gid).0 e), m, absent))
        ])
        ∙ undrawn b g i j (ground (arith, m)) in
      let (ts', ran', at', runs, same, grown) =
        join_groups-IsAt news (gid ∷ gids) ts1 at1 new.1 (omega arith) undrawn1 in
      let names : running.sg.servernames ≡ srv_names gid = unfold srv_names in running.named in
      let joined : join ctrler gid running.sg.servernames ts.sck ≡ returns sck =
        ground (arith, ran, names) in
      (
        ts',
        ground (arith, started, running.there, joined, is, member, ran'),
        at',
        λ g m. elim (Bool-cases (g == gid)) [
          | inl e ↦ rw ((nat_beq_iff g gid).0 e) (
              IsRunning-later nsrv (env.draw true gid) (pos gid) cfg1 ts'.cfg running
                (same (pos gid) (contains-tgids gid news ∙ absent)) grown)
          | inr e ↦ runs g (ground (arith, e, m))
        ],
        λ g h. same g (ground (arith, h)) ∙ groups g (ground (arith, h)),
        omega (arith, more, grown),
      )

  leave_groups-IsAt :
      (olds gids : List ℕ) (ts : Test S)
      → IsAt ctrler gids ts
      → CanGo olds gids
      → AreRunning env olds ts.cfg
      → (ts' : Test S) × (leave_groups ctrler env olds ts ≡ returns (true, ts'))
        × IsAt ctrler (without_all olds gids) ts'
        × ((g : ℤ)
            → lookup g ts'.cfg.grps
              ≡ (if contains g (tgids olds) then none else lookup g ts.cfg.grps))
  unfolding leave_groups leave check_member contains
  leave_groups-IsAt [] gids ts at go runs = (ts, refl, at, λ g. refl)
  leave_groups-IsAt (gid ∷ olds) gids ts at go runs =
      let (c, ran, fit, num, gone) = leave-step (ctrler.query ts.sck) gids gid at.fit go.0 go.1 in
      let sck = ctrler.change_config_to c ts.sck in
      let is : ctrler.query sck ≡ c = lawful.query-change c ts.sck num in
      let r = runs gid (ground (arith, nat_beq_iff gid gid)) in
      let (cfg1, ended, off) =
        exit_group-IsGone nsrv (env.draw true gid) (draw-apart env fair true gid) (pos gid) r.sg
          ts.cfg r.there r.numbered r.can_stop in
      let ts1 : Test S = record ts { sck = sck; cfg = cfg1 } in
      let at1 : IsAt ctrler (without gid gids) ts1 = record {
        fit = subst (λ x. IsFit x (without gid gids)) (sym is) fit;
        distinct = Distinct-without gid gids at.distinct;
      } in
      let absent : contains gid olds ≡ false =
        CanGo-absent olds (without gid gids) gid go.2 (contains-without_self gid gids) in
      let runs1 : AreRunning env olds cfg1 = λ g m.
        (let ne : (g == gid) ≡ false = elim (Bool-cases (g == gid)) [
          | inr e ↦ e
          | inl e ↦
              absurd (cc (ap (λ (x : ℕ). contains x olds) ((nat_beq_iff g gid).0 e), m, absent))
        ] in
          IsRunning-later nsrv (env.draw true g) (pos g) ts.cfg cfg1 (runs g (ground (arith, m)))
            (ground (arith, off.groups (pos g), other_int g gid ne)) off.more) in
      let (ts', ran', at', same) = leave_groups-IsAt olds (without gid gids) ts1 at1 go.2 runs1 in
      (
        ts',
        ground (arith, ran, is, gone, ended, ran'),
        at',
        λ g. ground (arith, same g, off.groups g),
      )

  -- setupKVService starts the first group, which then has all shards.
  pub setup_kv_service-IsAt :
      (ts : Test S)
      → AreUndrawn env (gid1 ∷ []) ts.cfg
      → (ts' : Test S) × (setup_kv_service ctrler env ts ≡ returns (gid1, ts'))
        × IsAt ctrler (gid1 ∷ []) ts'
        × IsRunning nsrv (env.draw true gid1) (pos gid1) ts'.cfg
        × (check_member ctrler gid1 ts'.sck ≡ true)
  unfolding setup_kv_service start_group group check_member ShardCfg.copy make_shard_config contains
      ShardCfg.check_config
  setup_kv_service-IsAt ts undrawn =
      let empty : IsFit make_shard_config [] = record {
        size = refl;
        distinct = tt;
        groups = λ g. refl;
        passes = refl;
      } in
      let (cfg1, started, running, groups, more, ends) =
        start_group-IsMade env fair gid1 ts.cfg undrawn in
      let (c, ran, fit, num, member) =
        join-step make_shard_config [] gid1 empty (refl, tt) (omega arith) in
      let sck = ctrler.init_config c ts.sck in
      let is : ctrler.query sck ≡ c = lawful.query-init c ts.sck in
      let names : running.sg.servernames ≡ srv_names gid1 = unfold srv_names in running.named in
      (
        record ts { cfg = cfg1; sck = sck },
        ground (arith, started, running.there, ran, names),
        record { fit = subst (λ x. IsFit x (gid1 ∷ [])) (sym is) fit; distinct = (refl, tt) },
        running,
        ground (arith, is, member),
      )

  -- joinGroups of new groups, as long as there are at most as many groups as shards, and then
  -- leaveGroups of them, both return true. After the first the configuration has the old and the new
  -- groups, each with its own servers, and after the second the old ones; each time it passes
  -- CheckConfig. In between each new group is in the tester's table, and it is no longer there in the
  -- end; all other groups of the table, also those that are in no configuration, are as before. The
  -- random names for the ends differ and are new, and no service that is started is nil.
  pub join_leave_groups :
      (news gids : List ℕ) (ts : Test S)
      → IsAt ctrler gids ts
      → AreNew news gids
      → All (λ g. 0 < g) news
      → length news + length gids ≤ nshards
      → AreUndrawn env news ts.cfg
      → (ts1 : Test S) × (ts2 : Test S) × (join_groups ctrler env news ts ≡ returns (true, ts1))
        × IsAt ctrler (onto news gids) ts1
        × AreRunning env news ts1.cfg
        × ((g : ℤ) → contains g (tgids news) ≡ false → lookup g ts1.cfg.grps ≡ lookup g ts.cfg.grps)
        × (leave_groups ctrler env news ts1 ≡ returns (true, ts2))
        × IsAt ctrler gids ts2
        × ((g : ℤ)
            → lookup g ts2.cfg.grps
              ≡ (if contains g (tgids news) then none else lookup g ts.cfg.grps))
  join_leave_groups news gids ts at new positive few undrawn =
      let (ts1, ran1, at1, runs, same, grown) = join_groups-IsAt news gids ts at new few undrawn in
      let (can, back) = leaves_again news gids new positive in
      let (ts2, ran2, at2, ended) = leave_groups-IsAt news (onto news gids) ts1 at1 can runs in
      (
        ts1,
        ts2,
        ran1,
        at1,
        runs,
        same,
        ran2,
        subst (λ gs. IsAt ctrler gs ts2) back at2,
        λ g. elim (Bool-cases (contains g (tgids news))) [
          | inl e ↦ ground (arith, ended g, e)
          | inr e ↦ ground (arith, ended g, e, same g e)
        ],
      )

  -- Where each of the groups has at most one shard, joinGroups of one more returns false, although
  -- the group has joined: the configuration has it with its servers, and passes CheckConfig, and the
  -- group is in the tester's table. The random names for its ends differ and are new, and no service
  -- that is started is nil.
  pub join_groups_crowded :
      (gid : ℕ) (more gids : List ℕ) (ts : Test S)
      → IsAt ctrler gids ts
      → contains gid gids ≡ false
      → All (λ g. contains g (tgids gids) ≡ true) (ctrler.query ts.sck).shards
      → ((g : Tgid) → count g (ctrler.query ts.sck).shards ≤ 1)
      → AreUndrawn env (gid ∷ []) ts.cfg
      → (ts' : Test S) × (join_groups ctrler env (gid ∷ more) ts ≡ returns (false, ts'))
        × IsAt ctrler (gid ∷ gids) ts'
        × IsRunning nsrv (env.draw true gid) (pos gid) ts'.cfg
  unfolding join_groups join check_member start_group group
  join_groups_crowded gid more gids ts at new assigned few undrawn =
      let (cfg1, started, running, groups, grown, ends) =
        start_group-IsMade env fair gid ts.cfg undrawn in
      let (c, ran, fit, num, none_) =
        join_crowded (ctrler.query ts.sck) gids gid at.fit new assigned few in
      let sck = ctrler.change_config_to c ts.sck in
      let is : ctrler.query sck ≡ c = lawful.query-change c ts.sck num in
      let names : running.sg.servernames ≡ srv_names gid = unfold srv_names in running.named in
      (
        record ts { sck = sck; cfg = cfg1 },
        ground (arith, started, running.there, ran, names, is, none_),
        record {
          fit = subst (λ x. IsFit x (gid ∷ gids)) (sym is) fit;
          distinct = (new, at.distinct);
        },
        running,
      )
