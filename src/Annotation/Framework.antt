-- ===== src/Annotation/Framework.antt =====
-- src/tester1/annotation.go: the framework's view of the servers, and the notes of checks and faults.
use mit.Base.{
  ℕ, zero, suc, String, Bool, true, false, not, ◌&&◌, Option, none, some, List, [], ◌∷◌, ◌++◌,
  if◌then◌else◌, ◌==◌, nat_eq, string_eq, get_elem?, set, replicate,
}
use mit.Base.Exec.{Exec, returns, panics, ◌>>=◌}
use mit.Annotation.{
  Annotation, Color, after, annotate_continuous_color, annotate_continuous_end,
  annotate_interval_color, annotate_point_color, checker_tag, clear, fault, fault_color, info,
  info_tag, partition_tag, partitions, plain, servers, tag_name,
}

pub record CheckerBegin : Type 0 where
  pub ts : ℕ
  pub details : String

pub record FrameworkInfo : Type 0 where
  pub nservers : ℕ
  pub connected : List Bool
  pub crashed : List Bool
  pub ckbegin : CheckerBegin

unfoldable pub mk_framework_info : ℕ → FrameworkInfo
mk_framework_info nservers = record {
  nservers = nservers;
  connected = replicate nservers true;
  crashed = replicate nservers false;
  ckbegin = record { ts = 0; details = "" };
}

-- `finfo` is none while the pointer is nil: its use panics.
pub record World : Type 0 where
  pub an : Annotation
  pub finfo : Option FrameworkInfo

abbrev pub set_an : Annotation → World → World
set_an an w = record w { an = an }

abbrev pub set_finfo : FrameworkInfo → World → World
set_finfo f w = record w { finfo = some f }

-- finfo.mu.Lock(): the rest of the function, with what `finfo` points to.
abbrev pub with_finfo : World → (FrameworkInfo → Exec World) → Exec World
with_finfo w body = elim w.finfo [ none ↦ panics | some f ↦ body f ]

unfoldable pub annotate_test : String → ℕ → ℕ → World → World
unfolding clear annotate_point_color mk_framework_info
annotate_test desp nservers t w = record {
  an =
      annotate_point_color (tag_name info_tag) (servers desp nservers) (servers desp nservers)
        (some info) t (clear w.an);
  finfo = some (mk_framework_info nservers);
}

unfoldable pub annotate_checker_begin : String → ℕ → World → Exec World
annotate_checker_begin details t w =
    with_finfo w
      (λ f. returns (set_finfo (record f { ckbegin = record { ts = t; details = details } }) w))

-- AnnotateCheckerEnd: its last line sets the field of a copy, so nothing is reset.
unfoldable pub annotate_checker_end : String → String → Color → ℕ → World → Exec World
unfolding annotate_point_color annotate_interval_color
annotate_checker_end desp details color t w = with_finfo w (λ f.
    let ckbegin = f.ckbegin in
    if ckbegin.ts == 0
    then returns (
        set_an
          (annotate_point_color (tag_name checker_tag) (plain desp) (plain details) (some color) t
            w.an)
          w)
    else returns (
        set_an
          (annotate_interval_color (tag_name checker_tag) ckbegin.ts (plain desp)
            (after ckbegin.details details) (some color) t w.an)
          w))

unfoldable pub set_annotation_finalized : World → World
set_annotation_finalized w = set_an (record w.an { finalized = true }) w

unfoldable pub is_finalized : World → Bool
is_finalized w = w.an.finalized

-- slices.Equal
unfoldable pub equal : List Bool → List Bool → Bool
equal [] [] = true
equal [] (b ∷ bs) = false
equal (a ∷ as_) [] = false
equal (a ∷ as_) (b ∷ bs) = (if a then b else not b) && equal as_ bs

-- copy(dst, src)
unfoldable pub copy_into : List Bool → List Bool → List Bool
copy_into [] src = []
copy_into (d ∷ dst) [] = d ∷ dst
copy_into (d ∷ dst) (s ∷ src) = s ∷ copy_into dst src

-- The three lists that annotateFault's loop fills.
pub record Sorted : Type 0 where
  pub alone : List ℕ
  pub conn : List ℕ
  pub crashes : List ℕ

unfoldable pub sort_servers : List Bool → List Bool → ℕ → Sorted → Exec Sorted
sort_servers [] crashed id out = returns out
sort_servers (c ∷ connected) crashed id out = elim (get_elem? crashed id) [
  | none ↦ panics
  | some down ↦ sort_servers connected crashed (suc id) (
      if down
      then record out { crashes = out.crashes ++ id ∷ [] }
      else if c
      then record out { conn = out.conn ++ id ∷ [] }
      else record out { alone = out.alone ++ id ∷ [] })
]

unfoldable pub annotate_fault : FrameworkInfo → ℕ → World → Exec World
unfolding equal sort_servers annotate_continuous_end annotate_continuous_color
annotate_fault f t w =
    if equal (replicate f.nservers true) f.connected && equal (replicate f.nservers false) f.crashed
    then returns (set_an (annotate_continuous_end (tag_name partition_tag) t w.an) w)
    else (sort_servers f.connected f.crashed 0 (record { alone = []; conn = []; crashes = [] })
        >>= λ (s : Sorted).
            let text = fault s.alone s.conn s.crashes in
            returns (
              set_an
                (annotate_continuous_color (tag_name partition_tag) text text (some fault_color) t
                  w.an)
                w))

unfoldable pub annotate_connection : List Bool → ℕ → World → Exec World
unfolding equal copy_into annotate_fault
annotate_connection connection t w = with_finfo w (λ f.
    let f1 = record f { connected = copy_into f.connected connection } in
    if equal f.connected connection then returns w else annotate_fault f1 t (set_finfo f1 w))

unfoldable pub annotate_two_partitions : List ℕ → List ℕ → ℕ → World → World
unfolding annotate_continuous_color
annotate_two_partitions p1 p2 t w =
    let text = partitions p1 p2 in
    set_an (annotate_continuous_color (tag_name partition_tag) text text (some fault_color) t w.an)
      w

unfoldable pub fill : Bool → List Bool → List Bool
fill b [] = []
fill b (x ∷ xs) = b ∷ fill b xs

unfoldable pub annotate_clear_failure : ℕ → World → Exec World
unfolding fill annotate_continuous_end
annotate_clear_failure t w = with_finfo w (λ f.
    let f1 = record f { crashed = fill false f.crashed; connected = fill true f.connected } in
    returns (set_an (annotate_continuous_end (tag_name partition_tag) t w.an) (set_finfo f1 w)))

-- The loops of AnnotateShutdown (`down`) and AnnotateRestart: the new `crashed`, and `changed`.
unfoldable pub mark : Bool → List ℕ → List Bool → Bool → Exec (List Bool × Bool)
mark down [] crashed changed = returns (crashed, changed)
mark down (id ∷ ids) crashed changed = elim (get_elem? crashed id) [
  | none ↦ panics
  | some old ↦
      mark down ids (set crashed id down)
        (if (if down then not old else old) then true else changed)
]

-- AnnotateShutdown and AnnotateRestart
unfoldable pub annotate_mark : Bool → List ℕ → ℕ → World → Exec World
unfolding mark annotate_fault
annotate_mark down ids t w = with_finfo w (λ f.
    mark down ids f.crashed false >>= λ (r : List Bool × Bool).
    let f1 = record f { crashed = r.0 } in
    if not r.1 then returns (set_finfo f1 w) else annotate_fault f1 t (set_finfo f1 w))

unfoldable pub count_up : ℕ → ℕ → List ℕ
count_up i zero = []
count_up i (suc n) = i ∷ count_up (suc i) n

-- AnnotateShutdownAll and AnnotateRestartAll
unfoldable pub annotate_mark_all : Bool → ℕ → World → Exec World
unfolding annotate_mark count_up
annotate_mark_all down t w = with_finfo w (λ f. annotate_mark down (count_up 0 f.nservers) t w)
