-- ===== src/Groups/Samples.antt =====
-- A group of three servers with the names of its ends.
use Prim.Native.Char.{code}
use mit.Base.Int.{pos}
use mit.Base.{
  ℕ, zero, suc, ◌+◌, ◌<◌, String, true, false, Option, none, some, [], ◌∷◌, if◌then◌else◌, ◌==◌,
  nat_eq, string_eq, get_elem?, ◌≡◌, refl, sym, ◌∙◌, ap, arith, inl, inr, Option-cases,
}
use mit.Groups.{Server, ServerGrp, end_name}
use mit.Groups.Ends.{IsNamed, AreApart}
use mit.Persister.{Persister}
use mit.Groups.Servers.{World}

-- The end from `i` to `j`: two numbers in unary.
abbrev pub ones : ℕ → String → String
ones zero rest = String.◌∷◌ "," rest
ones (suc n) rest = String.◌∷◌ "1" (ones n rest)

abbrev pub name : ℕ → ℕ → String
name i j = ones i (ones j "")

abbrev pub count_ones : String → Option (ℕ × String)
count_ones String.[] = none
count_ones (String.◌∷◌ c s) = elim (count_ones s) [
  | none ↦ if code c == b'1' then none else some (0, s)
  | some (n, rest) ↦ if code c == b'1' then some (n + 1, rest) else some (0, s)
]

pub ones_trip : (n : ℕ) (rest : String) → count_ones (ones n rest) ≡ some (n, rest)
ones_trip zero rest = elim (Option-cases (count_ones rest)) [
  | inl e ↦ ground arith
  | inr (x, e) ↦ ground arith
]
ones_trip (suc n) rest = ground (arith, ones_trip n rest)

pub name-apart : AreApart 3 name
name-apart i j k l li lj lk ll eq =
    let outer : some (i, ones j "") ≡ some (k, ones l "") =
      sym (ones_trip i (ones j "")) ∙ ap count_ones eq ∙ ones_trip k (ones l "") in
    let tails : ones j "" ≡ ones l "" = cc outer in
    let inner : some (j, "") ≡ some (l, "") =
      sym (ones_trip j "") ∙ ap count_ones tails ∙ ones_trip l "" in
    (cc outer, cc inner)

abbrev pub server : ℕ → Server
server i = record {
  saved = none;
  svcs = none;
  end_names = some (name i 0 ∷ name i 1 ∷ name i 2 ∷ []);
  clnt_ends = [];
}

-- Nobody is connected yet.
abbrev pub three : ServerGrp
three = record {
  net = record {
    reliable = true;
    long_delays = false;
    long_reordering = false;
    ends = [];
    enabled = [];
    servers = [];
    connections = [];
    done = false;
    count = 0;
    bytes = 0;
  };
  srvs = server 0 ∷ server 1 ∷ server 2 ∷ [];
  servernames = "s0" ∷ "s1" ∷ "s2" ∷ [];
  gid = pos 0;
  connected = false ∷ false ∷ false ∷ [];
}

pub three-servers : (i : ℕ) → i < 3 → get_elem? three.srvs i ≡ some (server i)
three-servers zero h = refl
three-servers (suc zero) h = refl
three-servers (suc (suc zero)) h = refl
three-servers (suc (suc (suc i))) h = absurd (omega arith)

pub three_names :
    (i j : ℕ) → j < 3 → get_elem? (name i 0 ∷ name i 1 ∷ name i 2 ∷ []) j ≡ some (name i j)
three_names i zero h = refl
three_names i (suc zero) h = refl
three_names i (suc (suc zero)) h = refl
three_names i (suc (suc (suc j))) h = absurd (omega arith)

pub three-IsNamed : IsNamed 3 name three
unfolding end_name
three-IsNamed = record {
  size = refl;
  servers = λ i h. (server i, name i 0 ∷ name i 1 ∷ name i 2 ∷ [], three-servers i h, refl);
  ends = λ i j li lj. ground (arith, three-servers i li, three_names i j lj);
}

abbrev pub state : ℕ → Persister
state r = record { raftstate = some r; snapshot = none }

-- Server 1 has saved something, and runs two services.
abbrev pub running : Server
running = record (server 1) { saved = some 0; svcs = some (some 4 ∷ some 5 ∷ []) }

abbrev pub world : World
world = record {
  sg = record three { srvs = server 0 ∷ running ∷ server 2 ∷ [] };
  persisters = state 0 ∷ [];
  killed = [];
}

pub world-servers :
    (i : ℕ)
    → i < 3
    → (s : Server) × (get_elem? world.sg.srvs i ≡ some s) × (s.end_names ≡ (server i).end_names)
world-servers zero h = (server 0, refl, refl)
world-servers (suc zero) h = (running, refl, refl)
world-servers (suc (suc zero)) h = (server 2, refl, refl)
world-servers (suc (suc (suc i))) h = absurd (omega arith)

pub world-IsNamed : IsNamed 3 name world.sg
unfolding end_name
world-IsNamed = record {
  size = refl;
  servers = λ i h.
      let (s, at, same) = world-servers i h in (s, name i 0 ∷ name i 1 ∷ name i 2 ∷ [], at, same);
  ends = λ i j li lj.
      let (s, at, same) = world-servers i li in ground (arith, at, same, three_names i j lj);
}
