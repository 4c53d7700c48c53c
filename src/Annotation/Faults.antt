-- ===== src/Annotation/Faults.antt =====
-- The calls that mark servers as down or up.
use mit.Base.{
  get_elem?-below, ℕ, zero, suc, ◌<◌, Bool, true, false, not, ◌&&◌, some, List, [], ◌∷◌,
  if◌then◌else◌, ◌==◌, nat_eq, length, get_elem?, set, replicate, contains, All, get_elem?-set,
  length-set, ◌≡◌, refl, sym, ◌∙◌, inl, inr, arith, Bool-cases, ap, subst,
}
use mit.Base.Exec.{returns}
use mit.Annotation.{
  Annotation, annotate_continuous_end, annotate_continuous_color, tag_name, partition_tag, fault,
  fault_color,
}
use mit.Annotation.Framework.{
  FrameworkInfo, World, annotate_fault, annotate_mark, mark, set_finfo, equal,
}
use mit.Annotation.Sorting.{IsWellFormed, sort_servers-IsSorted}

mark-lem :
    (down : Bool) (ids : List ℕ) (crashed : List Bool) (changed : Bool)
    → All (λ id. id < length crashed) ids
    → (crashed' : List Bool) × (changed' : Bool) × (mark down ids crashed changed
        ≡ returns (crashed', changed'))
      × (length crashed' ≡ length crashed)
      × ((id : ℕ) (old : Bool)
          → get_elem? crashed id ≡ some old
          → get_elem? crashed' id ≡ some (if contains id ids then down else old))
unfolding mark contains
mark-lem down [] crashed changed h = (crashed, changed, refl, refl, λ id old e. e)
mark-lem down (i ∷ ids) crashed changed h =
    let (was, is_was) = get_elem?-below crashed i h.0 in
    let now = if (if down then not was else was) then true else changed in
    let size = length-set crashed i down in
    let (crashed', changed', ran, len, at) =
      mark-lem down ids (set crashed i down) now
        (subst (λ n. All (λ id. id < n) ids) (sym size) h.1) in
    (
      crashed',
      changed',
      ground (arith, is_was, ran),
      len ∙ size,
      λ id old e. elim (Bool-cases (id == i)) [
        | inl mine ↦ ground (arith, at id down, get_elem?-set crashed i id down was is_was, mine)
        | inr other ↦
            ground (arith, at id old, get_elem?-set crashed i id down was is_was, other, e)
      ],
    )

annotate_fault_returns :
    (f : FrameworkInfo) (t : ℕ) (w : World)
    → IsWellFormed f
    → (an : Annotation) × (annotate_fault f t w ≡ returns (record w { an = an }))
unfolding annotate_fault
annotate_fault_returns f t w wf =
    let (s, ran, _) = sort_servers-IsSorted f wf in
    elim (Bool-cases (
      equal (replicate f.nservers true) f.connected
      && equal (replicate f.nservers false) f.crashed)) [
        | inl calm ↦ (annotate_continuous_end (tag_name partition_tag) t w.an, ground (arith, calm))
        | inr trouble ↦
            let text = fault s.alone s.conn s.crashes in
            (
              annotate_continuous_color (tag_name partition_tag) text text (some fault_color) t
                  w.an,
              ground (arith, trouble, ran),
            )
      ]

-- AnnotateShutdown (`down`) and AnnotateRestart return, for servers that there are: the named servers
-- are then down or up, the others and the connections are as before.
pub annotate_mark_returns :
    (down : Bool) (ids : List ℕ) (t : ℕ) (w : World) (f : FrameworkInfo)
    → w.finfo ≡ some f
    → IsWellFormed f
    → All (λ id. id < f.nservers) ids
    → (w' : World) × (f' : FrameworkInfo) × (annotate_mark down ids t w ≡ returns w')
      × (w'.finfo ≡ some f')
      × IsWellFormed f'
      × (f'.connected ≡ f.connected)
      × ((id : ℕ) (old : Bool)
          → get_elem? f.crashed id ≡ some old
          → get_elem? f'.crashed id ≡ some (if contains id ids then down else old))
unfolding annotate_mark
annotate_mark_returns down ids t w f is_f wf h =
    let (crashed', changed', ran, len, at) =
      mark-lem down ids f.crashed false
        (subst (λ n. All (λ id. id < n) ids) (sym wf.crashed_size) h) in
    let f1 : FrameworkInfo = record f { crashed = crashed' } in
    let wf1 : IsWellFormed f1 = record {
      connected_size = wf.connected_size;
      crashed_size = len ∙ wf.crashed_size;
    } in
    let (an, noted) = annotate_fault_returns f1 t (set_finfo f1 w) wf1 in
    elim (Bool-cases changed') [
      | inr same ↦ (set_finfo f1 w, f1, ground (arith, is_f, ran, same), refl, wf1, refl, at)
      | inl moved ↦ (
        record (set_finfo f1 w) { an = an },
        f1,
        ground (arith, is_f, ran, moved, noted),
        refl,
        wf1,
        refl,
        at,
      )
    ]

set-same : (xs : List Bool) (i : ℕ) (x : Bool) → get_elem? xs i ≡ some x → set xs i x ≡ xs
set-same [] i x h = refl
set-same (y ∷ xs) zero x h = let same : y ≡ x = cc h in ap (◌∷ xs) (sym same)
set-same (y ∷ xs) (suc i) x h = ap (◌∷◌ y) (set-same xs i x h)

mark_again :
    (down : Bool) (ids : List ℕ) (crashed : List Bool) (changed : Bool)
    → All (λ id. get_elem? crashed id ≡ some down) ids
    → mark down ids crashed changed ≡ returns (crashed, changed)
unfolding mark
mark_again down [] crashed changed h = refl
mark_again down (i ∷ ids) crashed changed h =
    let ih = mark_again down ids crashed changed h.1 in
    ground (arith, h.0, set-same crashed i down h.0, ih)

-- Servers that are all down already, or all up, are not noted again: the call changes nothing.
pub annotate_mark_again :
    (down : Bool) (ids : List ℕ) (t : ℕ) (w : World) (f : FrameworkInfo)
    → w.finfo ≡ some f
    → All (λ id. get_elem? f.crashed id ≡ some down) ids
    → annotate_mark down ids t w ≡ returns w
unfolding annotate_mark
annotate_mark_again down ids t w f is_f h =
    let ran = mark_again down ids f.crashed false h in ground (arith, is_f, ran)
