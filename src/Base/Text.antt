-- ===== src/Base/Text.antt =====
-- Decidable equality of texts.
use Prim.Native.String.{String}
use mathlib.Core.Path.{◌≡◌, refl}
use mathlib.Core.Bool.{Bool, true, false}
use text.Mathlib.Text.{◌==◌}
use text.Mathlib.TextEquality.{eq_iff}

pub refute : {A : Type 0} → (A → false ≡ true) → ¬ A
refute f a = let h : false ≡ true = f a in cc

abbrev decide_by : (b : Bool) (s t : String) → (b ≡ true → s ≡ t) → (s ≡ t → b ≡ true) → Dec (s ≡ t)
decide_by true s t f g = yes (f refl)
decide_by false s t f g = no (refute g)

unfoldable pub text_discrete : Discrete String
text_discrete s t = decide_by (s == t) s t (eq_iff s t).0 (eq_iff s t).1
