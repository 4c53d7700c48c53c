-- ===== src/Annotation/Tests.antt =====
-- Notes of a small test with three servers, and the theorems at them.
use mit.Base.{
  ℕ, ◌+◌, Bool, true, false, some, [], ◌∷◌, if◌then◌else◌, string_eq, nat_eq, ◌≡◌, refl, arith,
  get_elem?, contains, length,
}
use mit.Base.Maps.{lookup, insert, erase}
use mit.Base.Exec.{returns}
use mit.Annotation.{Annotation, annotate_continuous_color, annotate_continuous_end, finalize}
use mit.Annotation.Framework.{
  FrameworkInfo, World, sort_servers, annotate_mark, annotate_connection, annotate_checker_begin,
  annotate_checker_end,
}
use mit.Annotation.Sorting.{IsWellFormed}
use mit.Annotation.Faults.{annotate_mark_returns, annotate_mark_again}
use mit.Annotation.Notes.{length-finalize}

-- Server 1 is cut off and server 2 is down.
abbrev trouble : FrameworkInfo
trouble = record {
  nservers = 3;
  connected = true ∷ false ∷ true ∷ [];
  crashed = false ∷ false ∷ true ∷ [];
  ckbegin = record { ts = 0; details = "" };
}

abbrev blank : Annotation
blank = record { annotations = []; continuous = []; finalized = false }

abbrev run : World
run = record { an = blank; finfo = some trouble }

unfold_all : Unit {0}
unfolding sort_servers annotate_mark annotate_connection annotate_continuous_color
    annotate_continuous_end annotate_checker_begin annotate_checker_end finalize lookup insert erase
    contains
unfold_all = tt

trouble-IsWellFormed : IsWellFormed trouble
trouble-IsWellFormed = record { connected_size = refl; crashed_size = refl }

sort_servers-trouble :
    sort_servers trouble.connected trouble.crashed 0
      (record { alone = []; conn = []; crashes = [] })
    ≡ returns (record { alone = 1 ∷ []; conn = 0 ∷ []; crashes = 2 ∷ [] })
unfolding unfold_all
sort_servers-trouble = refl

annotate_mark_returns_example :
    (w' : World) × (f' : FrameworkInfo) × (annotate_mark true (0 ∷ []) 5 run ≡ returns w')
    × (w'.finfo ≡ some f')
    × IsWellFormed f'
    × (f'.connected ≡ trouble.connected)
    × ((id : ℕ) (old : Bool)
        → get_elem? trouble.crashed id ≡ some old
        → get_elem? f'.crashed id ≡ some (if contains id (0 ∷ []) then true else old))
annotate_mark_returns_example =
    annotate_mark_returns true (0 ∷ []) 5 run trouble refl trouble-IsWellFormed (omega arith, tt)

annotate_mark_again_example : annotate_mark true (2 ∷ []) 5 run ≡ returns run
annotate_mark_again_example = annotate_mark_again true (2 ∷ []) 5 run trouble refl (refl, tt)

length-finalize_example :
    (length (finalize 3 blank).0 ≡ 0 + 0) × ((finalize 3 blank).1.finalized ≡ true)
length-finalize_example = length-finalize 3 blank
