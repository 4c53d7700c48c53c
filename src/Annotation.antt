-- ===== src/Annotation.antt =====
-- src/tester1/annotation.go: the notes on a test run that its picture shows. The two globals
-- `annotation` and `finfo` are one state; the time is an argument, and one call reads it once. A text
-- that fmt makes is the data that it is made of. Files, signals and colours' codes are left out.
pub mod Framework
pub mod Sorting
pub mod Faults
pub mod Notes
mod Tests
use mit.Base.{
  ℕ, zero, suc, ◌+◌, String, Bool, true, false, not, ◌&&◌, ◌||◌, Option, none, some, List, [], ◌∷◌,
  ◌++◌, if◌then◌else◌, or_else, ltb, ◌==◌, nat_eq, string_eq, length, get_elem?, set, replicate,
}
use mit.Base.Maps.{Map, lookup, insert, erase}
use mit.Base.Exec.{Exec, returns, panics, ◌>>=◌}

-- A description or its details: a given text, a begun check's text before another ("%s: %s"), the
-- text of annotateFault, and that of AnnotateTwoPartitions.
pub data Text : Type 0 where
  plain : String → Text
  after : String → String → Text
  servers : String → ℕ → Text
  fault : (alone conn crashes : List ℕ) → Text
  partitions : (p1 p2 : List ℕ) → Text

pub data Color : Type 0 where
  info neutral success failure fault_color user : Color

-- The zero value has no colour.
pub data Tag : Type 0 where
  checker_tag partition_tag info_tag : Tag
  other_tag : String → Tag

abbrev pub tag_name : Tag → String
tag_name checker_tag = "$ Checker"
tag_name partition_tag = "$ Failure"
tag_name info_tag = "$ Test Info"
tag_name (other_tag s) = s

-- porcupine.Annotation; a point has end 0.
pub record Note : Type 0 where
  pub tag : String
  pub start : ℕ
  pub end_ : ℕ
  pub desp : Text
  pub details : Text
  pub bgcolor : Option Color

pub record Continuous : Type 0 where
  pub start : ℕ
  pub desp : Text
  pub details : Text
  pub bgcolor : Option Color

abbrev pub no_continuous : Continuous
no_continuous = record { start = 0; desp = plain ""; details = plain ""; bgcolor = none }

pub record Annotation : Type 0 where
  pub annotations : List Note
  pub continuous : Map String Continuous
  pub finalized : Bool

-- mkAnnotation
unfoldable pub mk_annotation : Annotation
mk_annotation = record { annotations = []; continuous = []; finalized = false }

unfoldable pub clear : Annotation → Annotation
clear an = record { annotations = []; continuous = []; finalized = false }

unfoldable pub annotate_point_color :
    String → Text → Text → Option Color → ℕ → Annotation → Annotation
annotate_point_color tag desp details bgcolor t an =
    let a : Note = record {
      tag = tag;
      start = t;
      end_ = 0;
      desp = desp;
      details = details;
      bgcolor = bgcolor;
    } in
    record an { annotations = an.annotations ++ a ∷ [] }

unfoldable pub annotate_interval_color :
    String → ℕ → Text → Text → Option Color → ℕ → Annotation → Annotation
annotate_interval_color tag start desp details bgcolor t an =
    let a : Note = record {
      tag = tag;
      start = start;
      end_ = t;
      desp = desp;
      details = details;
      bgcolor = bgcolor;
    } in
    record an { annotations = an.annotations ++ a ∷ [] }

-- The note that a continuous annotation becomes when it ends.
abbrev pub concretize : String → Continuous → ℕ → Note
concretize tag cont t = record {
  tag = tag;
  start = cont.start;
  end_ = t;
  desp = cont.desp;
  details = cont.details;
  bgcolor = cont.bgcolor;
}

unfoldable pub annotate_continuous_color :
    String → Text → Text → Option Color → ℕ → Annotation → Annotation
annotate_continuous_color tag desp details bgcolor t an = elim (lookup tag an.continuous) [
  | none ↦ record an {
    continuous =
        insert tag (record { start = t; desp = desp; details = details; bgcolor = bgcolor })
          an.continuous;
  }
  | some cont ↦ record an {
    annotations = an.annotations ++ concretize tag cont t ∷ [];
    continuous =
        insert tag (record { start = t + 1000; desp = desp; details = details; bgcolor = bgcolor })
          an.continuous;
  }
]

-- annotateContinuousEnd: without an ongoing annotation the code goes on with the zero value.
unfoldable pub annotate_continuous_end : String → ℕ → Annotation → Annotation
annotate_continuous_end tag t an = record an {
  annotations =
      an.annotations ++ concretize tag (or_else (lookup tag an.continuous) no_continuous) t ∷ [];
  continuous = erase tag an.continuous;
}

unfoldable pub close_all : Map String Continuous → ℕ → List Note
close_all [] t = []
close_all ((tag, cont) ∷ m) t = concretize tag cont t ∷ close_all m t

unfoldable pub finalize : ℕ → Annotation → List Note × Annotation
unfolding close_all
finalize t an = (an.annotations ++ close_all an.continuous t, record an { finalized = true })

-- FinalizeAnnotations
unfoldable pub finalize_annotations : String → ℕ → Annotation → List Note × Annotation
unfolding finalize
finalize_annotations end_ t an =
    let (notes, an1) = finalize t an in
    (
      notes
          ++ record {
            tag = tag_name info_tag;
            start = t;
            end_ = t + 1000;
            desp = plain end_;
            details = plain end_;
            bgcolor = some info;
          }
            ∷ [],
      an1,
    )

-- cleanup up to the writing of the file: the notes that it writes, if any.
unfoldable pub cleanup : String → Bool → String → ℕ → Annotation → Option (List Note) × Annotation
unfolding clear finalize_annotations
cleanup enabled failed end_ t an =
    let (notes, an1) = finalize t an in
    if enabled == "never" || (not failed && not (enabled == "always")) || an.finalized
    then (none, clear an)
    else if length notes == 0
    then (none, an1)
    else (some (finalize_annotations end_ t an).0, an1)
