-- ===== src/Groups/Names.antt =====
-- ServerName: the names of the servers.
use Prim.Native.Char.{code}
use mit.Base.Text.{join, join_assoc}
use mit.Base.Int.{ℤ, pos, negsuc}
use mit.Base.{
  ◌≤◌, nat_beq_iff, ℕ, zero, suc, ◌+◌, ◌-◌, ◌*◌, ◌/◌, ◌%◌, ◌<◌, String, true, false, ◌&&◌,
  if◌then◌else◌, ltb, leb, ◌==◌, nat_eq, contains, string_eq, ◌≡◌, refl, sym, ap, ◌∙◌, ◌≢◌, inl,
  inr, arith, Bool-cases,
}
use mit.Groups.Servers.{digit, itoa_loop, itoa, itoa_int, server_name, server_names}

-- The number that a text starts with, after `acc`.
unfoldable value : String → ℕ → ℕ
value String.[] acc = acc
value (String.◌∷◌ c s) acc =
    let more = value s (acc * 10 + (code c - 48)) in
    if leb 48 (code c) && leb (code c) 57 then more else acc

value-digit :
    (n acc : ℕ) (rest : String)
    → n < 10
    → value (join (digit n) rest) acc ≡ value rest (acc * 10 + n)
unfolding value digit join
value-digit zero acc rest h = refl
value-digit (suc zero) acc rest h = refl
value-digit (suc (suc zero)) acc rest h = refl
value-digit (suc (suc (suc zero))) acc rest h = refl
value-digit (suc (suc (suc (suc zero)))) acc rest h = refl
value-digit (suc (suc (suc (suc (suc zero))))) acc rest h = refl
value-digit (suc (suc (suc (suc (suc (suc zero)))))) acc rest h = refl
value-digit (suc (suc (suc (suc (suc (suc (suc zero))))))) acc rest h = refl
value-digit (suc (suc (suc (suc (suc (suc (suc (suc zero)))))))) acc rest h = refl
value-digit (suc (suc (suc (suc (suc (suc (suc (suc (suc zero))))))))) acc rest h = refl
value-digit (suc (suc (suc (suc (suc (suc (suc (suc (suc (suc n)))))))))) acc rest h =
    absurd (omega arith)

value-itoa_loop :
    (fuel n : ℕ) (rest : String) → n < fuel → value (itoa_loop fuel n rest) 0 ≡ value rest n
unfolding itoa_loop
value-itoa_loop zero n rest h = absurd (omega arith)
value-itoa_loop (suc fuel) n rest h = elim (Bool-cases (ltb n 10)) [
  | inl small ↦
      let same : n % 10 ≡ n = ground arith in
      ground (arith, small, value-digit (n % 10) 0 rest (omega arith), same)
  | inr large ↦
      let whole : n / 10 * 10 + n % 10 ≡ n = omega arith in
      ground (
        arith,
        large,
        value-itoa_loop fuel (n / 10) (join (digit (n % 10)) rest) (ground arith),
        value-digit (n % 10) (n / 10) rest (omega arith),
        whole,
      )
]

join-itoa_loop :
    (fuel n : ℕ) (rest t : String) → join (itoa_loop fuel n rest) t ≡ itoa_loop fuel n (join rest t)
unfolding itoa_loop
join-itoa_loop zero n rest t = refl
join-itoa_loop (suc fuel) n rest t = ground (
  arith,
  join_assoc (digit (n % 10)) rest t,
  join-itoa_loop fuel (n / 10) (join (digit (n % 10)) rest) t,
)

value-itoa : (n : ℕ) (t : String) → value (join (itoa n) t) 0 ≡ value (join String.[] t) n
unfolding itoa
value-itoa n t =
    ap (λ (s : String). value s 0) (join-itoa_loop (suc n) n String.[] t)
    ∙ value-itoa_loop (suc n) n (join String.[] t) (omega arith)

join_cancel : (a s t : String) → join a s ≡ join a t → s ≡ t
unfolding join
join_cancel String.[] s t e = e
join_cancel (String.◌∷◌ c a) s t e = join_cancel a s t (cc e)

itoa-inj :
    (n m : ℕ) (s t : String) → join (itoa n) (join "-" s) ≡ join (itoa m) (join "-" t) → n ≡ m
unfolding value join
itoa-inj n m s t e =
    sym (value-itoa n (join "-" s)) ∙ ap (λ (x : String). value x 0) e ∙ value-itoa m (join "-" t)

itoa_end-inj : (n m : ℕ) → itoa n ≡ itoa m → n ≡ m
unfolding value join
itoa_end-inj n m e =
    sym (value-itoa n String.[])
    ∙ ap (λ (x : String). value (join x String.[]) 0) e
    ∙ value-itoa m String.[]

abbrev first_code : String → ℕ
first_code String.[] = 0
first_code (String.◌∷◌ c s) = code c

zero_unsigned : (m : ℕ) (s t : String) → join (itoa 0) (join "-" s) ≢ join (itoa_int (negsuc m)) t
unfolding itoa itoa_loop itoa_int digit join
zero_unsigned m s t e =
    let codes : first_code (join (itoa 0) (join "-" s))
        ≡ first_code (join (itoa_int (negsuc m)) t) =
      ap first_code e in
    let sign : 48 ≡ 45 = codes in absurd (omega arith)

-- A number that is not negative has no sign.
unsigned : (n m : ℕ) (s t : String) → join (itoa n) (join "-" s) ≢ join (itoa_int (negsuc m)) t
unfolding value join itoa_int
unsigned n m s t e =
    let zero_ : n ≡ 0 = sym (value-itoa n (join "-" s)) ∙ ap (λ (x : String). value x 0) e in
    zero_unsigned m s t (ap (λ (k : ℕ). join (itoa k) (join "-" s)) (sym zero_) ∙ e)

itoa_int-inj :
    (a b : ℤ) (s t : String)
    → join (itoa_int a) (join "-" s) ≡ join (itoa_int b) (join "-" t)
    → a ≡ b
unfolding itoa_int join
itoa_int-inj (pos n) (pos m) s t e = ap pos (itoa-inj n m s t e)
itoa_int-inj (pos n) (negsuc m) s t e = absurd (unsigned n m s (join "-" t) e)
itoa_int-inj (negsuc n) (pos m) s t e = absurd (unsigned m n t (join "-" s) (sym e))
itoa_int-inj (negsuc n) (negsuc m) s t e =
    let same : suc n ≡ suc m = itoa-inj (suc n) (suc m) s t (join_cancel "-" _ _ e) in
    ap negsuc (omega arith)

-- Two servers have the same name only if they are in the same group and have the same number in it;
-- a group may have any number, also a negative one.
pub server_name-inj :
    (gid g : ℤ) (i j : ℕ) → server_name gid i ≡ server_name g j → (gid ≡ g) × (i ≡ j)
unfolding server_name
server_name-inj gid g i j e =
    let rest : join (itoa_int gid) (join "-" (itoa i)) ≡ join (itoa_int g) (join "-" (itoa j)) =
      join_cancel "server-" _ _ e in
    let group : gid ≡ g = itoa_int-inj gid g (itoa i) (itoa j) rest in
    let tails : join "-" (itoa i) ≡ join "-" (itoa j) =
      join_cancel (itoa_int g) _ _
        (ap (λ (x : ℤ). join (itoa_int x) (join "-" (itoa i))) (sym group) ∙ rest) in
    (group, itoa_end-inj i j (join_cancel "-" _ _ tails))

server_name-apart : (gid g : ℤ) (i j : ℕ) → gid ≢ g → server_name gid i ≢ server_name g j
server_name-apart gid g i j ne e = ne (server_name-inj gid g i j e).0

pub server_names-gid :
    (gid g : ℤ) (i j left : ℕ)
    → gid ≢ g
    → contains (server_name gid i) (server_names g j left) ≡ false
unfolding server_names contains
server_names-gid gid g i j zero ne = refl
server_names-gid gid g i j (suc left) ne = ground (
  arith,
  string_eq.beq_iff (server_name gid i) (server_name g j),
  server_name-apart gid g i j ne,
  server_names-gid gid g i (suc j) left ne,
)

pub server_names-apart :
    (gid g : ℤ) (i left j n : ℕ) (x : String)
    → gid ≢ g
    → contains x (server_names gid i left) ≡ true
    → contains x (server_names g j n) ≡ false
unfolding server_names contains
server_names-apart gid g i zero j n x ne m = cc
server_names-apart gid g i (suc left) j n x ne m = elim (Bool-cases (x == server_name gid i)) [
  | inl e ↦ rw ((string_eq.beq_iff x (server_name gid i)).0 e) (server_names-gid gid g i j n ne)
  | inr e ↦ server_names-apart gid g (suc i) left j n x ne (ground (arith, e, m))
]

pub contains-server_names :
    (gid : ℤ) (i j left : ℕ)
    → j ≤ i
    → i < j + left
    → contains (server_name gid i) (server_names gid j left) ≡ true
unfolding server_names contains
contains-server_names gid i j zero lo hi = absurd (omega arith)
contains-server_names gid i j (suc left) lo hi = elim (Bool-cases (i == j)) [
  | inl e ↦ ground (
    arith,
    string_eq.beq_iff (server_name gid i) (server_name gid j),
    ap (server_name gid) ((nat_beq_iff i j).0 e),
  )
  | inr e ↦ ground (
    arith,
    contains-server_names gid i (suc j) left (ground (arith, e, nat_beq_iff i j, lo)) (omega arith),
  )
]
