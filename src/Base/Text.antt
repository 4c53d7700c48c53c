-- ===== src/Base/Text.antt =====
-- Go's `+` on texts.
use Prim.Native.String.{String}
use mathlib.Core.Path.{◌≡◌, refl, ap}

unfoldable pub join : String → String → String
join String.[] t = t
join (String.◌∷◌ c s) t = String.◌∷◌ c (join s t)

pub join_assoc : (a b c : String) → join (join a b) c ≡ join a (join b c)
unfolding join
join_assoc String.[] b c = refl
join_assoc (String.◌∷◌ x a) b c = ap (String.◌∷◌ x) (join_assoc a b c)
