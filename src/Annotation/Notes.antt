-- ===== src/Annotation/Notes.antt =====
-- The notes: ongoing ones and how they end, and the notes of checks.
use mit.Base.{
  snoc-append, ℕ, suc, ◌+◌, String, true, false, Option, none, some, [], ◌∷◌, ◌++◌, ◌==◌, nat_eq,
  string_eq, length, length-append, ◌≡◌, refl, arith, ap,
}
use mit.Base.Maps.{Map, lookup, insert, lookup-insert, lookup-erase}
use mit.Base.Exec.{returns, ◌>>=◌}
use mit.Annotation.{
  Text, plain, after, Color, Note, Continuous, Annotation, tag_name, checker_tag, concretize,
  annotate_continuous_color, annotate_continuous_end, annotate_interval_color, finalize, close_all,
}
use mit.Annotation.Framework.{FrameworkInfo, World, annotate_checker_end, annotate_checker_begin}

abbrev pub note : String → ℕ → ℕ → Text → Text → Option Color → Note
note tag start end_ desp details color = record {
  tag = tag;
  start = start;
  end_ = end_;
  desp = desp;
  details = details;
  bgcolor = color;
}

-- Two ongoing notes of one tag, one behind the other: the second ends the first at its own time and
-- starts 1000 later, the end of the tag ends the second, and nothing is ongoing for the tag. Nothing
-- was before.
pub annotate_continuous_end-color :
    (tag : String) (d1 d2 : Text) (c1 c2 : Option Color) (t1 t2 t3 : ℕ) (an : Annotation)
    → lookup tag an.continuous ≡ none
    → let an1 = annotate_continuous_color tag d1 d1 c1 t1 an in
      let an2 = annotate_continuous_color tag d2 d2 c2 t2 an1 in
      let an3 = annotate_continuous_end tag t3 an2 in
      (an3.annotations
        ≡ an.annotations ++ note tag t1 t2 d1 d1 c1 ∷ note tag (t2 + 1000) t3 d2 d2 c2 ∷ [])
      × (lookup tag an3.continuous ≡ none)
unfolding annotate_continuous_color annotate_continuous_end
annotate_continuous_end-color tag d1 d2 c1 c2 t1 t2 t3 an quiet =
    let k1 : Continuous = record { start = t1; desp = d1; details = d1; bgcolor = c1 } in
    let k2 : Continuous = record { start = t2 + 1000; desp = d2; details = d2; bgcolor = c2 } in
    let m1 = insert tag k1 an.continuous in
    let l1 : lookup tag m1 ≡ some k1 =
      ground (arith, lookup-insert tag tag k1 an.continuous, string_eq.beq_iff tag tag) in
    let m2 = insert tag k2 m1 in
    let l2 : lookup tag m2 ≡ some k2 =
      ground (arith, lookup-insert tag tag k2 m1, string_eq.beq_iff tag tag) in
    (
      ground (
        arith,
        quiet,
        l1,
        l2,
        snoc-append an.annotations (concretize tag k1 t2) ((concretize tag k2 t3) ∷ []),
      ),
      ground (arith, quiet, l1, lookup-erase tag tag m2, string_eq.beq_iff tag tag),
    )

-- The end of a tag for which nothing is ongoing still adds a note: it is empty and starts at 0.
pub annotate_continuous_end-nothing :
    (tag : String) (t : ℕ) (an : Annotation)
    → lookup tag an.continuous ≡ none
    → ((annotate_continuous_end tag t an).annotations
        ≡ an.annotations ++ note tag 0 t (plain "") (plain "") none ∷ [])
      × ((other : String)
          → lookup other (annotate_continuous_end tag t an).continuous ≡ lookup other an.continuous)
unfolding annotate_continuous_end
annotate_continuous_end-nothing tag t an quiet = (
  ground (arith, quiet),
  λ other. ground (arith, quiet, lookup-erase tag other an.continuous, string_eq.beq_iff other tag),
)

-- The second of two results of checks, with no check begun between them, is noted as an interval from
-- the first one's beginning, under the first one's text: the beginning is not forgotten.
pub annotate_checker_end-stale :
    (begun : String) (d1 x1 d2 x2 : String) (c1 c2 : Color) (t0 t1 t2 : ℕ) (w : World)
    (f : FrameworkInfo)
    → w.finfo ≡ some f
    → (t0 == 0) ≡ false
    → (w' : World) × ((annotate_checker_begin begun t0 w >>= λ (w1 : World).
          annotate_checker_end d1 x1 c1 t1 w1 >>= annotate_checker_end d2 x2 c2 t2)
        ≡ returns w')
      × (w'.an.annotations
          ≡ w.an.annotations
            ++ note (tag_name checker_tag) t0 t1 (plain d1) (after begun x1) (some c1)
              ∷ note (tag_name checker_tag) t0 t2 (plain d2) (after begun x2) (some c2)
              ∷ [])
unfolding annotate_checker_begin annotate_checker_end annotate_interval_color
annotate_checker_end-stale begun d1 x1 d2 x2 c1 c2 t0 t1 t2 w f is_f real =
    let f1 : FrameworkInfo = record f { ckbegin = record { ts = t0; details = begun } } in
    let n1 = note (tag_name checker_tag) t0 t1 (plain d1) (after begun x1) (some c1) in
    let n2 = note (tag_name checker_tag) t0 t2 (plain d2) (after begun x2) (some c2) in
    (
      record {
        an = record w.an { annotations = (w.an.annotations ++ n1 ∷ []) ++ n2 ∷ [] };
        finfo = some f1;
      },
      ground (arith, is_f, real),
      snoc-append w.an.annotations n1 (n2 ∷ []),
    )

length-close_all : (m : Map String Continuous) (t : ℕ) → length (close_all m t) ≡ length m
unfolding close_all
length-close_all [] t = refl
length-close_all (x ∷ m) t = ap suc (length-close_all m t)

-- finalize gives one note for each that has ended and for each that is ongoing.
pub length-finalize :
    (t : ℕ) (an : Annotation)
    → (length (finalize t an).0 ≡ length an.annotations + length an.continuous)
      × ((finalize t an).1.finalized ≡ true)
unfolding finalize
length-finalize t an = (
  omega (
    arith,
    length-append an.annotations (close_all an.continuous t),
    length-close_all an.continuous t,
  ),
  refl,
)
