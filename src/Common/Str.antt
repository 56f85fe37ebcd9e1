-- ===== src/Common/Str.antt =====
-- Go strings: equality decides.
use Prim.Native.String.{String}
use mathlib.Core.Path.{◌≡◌, refl}
use mathlib.Core.Bool.{Bool, true, false}
use text.Mathlib.Text.{◌==◌}
use text.Mathlib.TextEquality.{eq_iff}

pub ne_of_test : (a b : String) → (a == b) ≡ false → ¬ (a ≡ b)
ne_of_test a b h e = let t = (eq_iff a b).1 e in cc

abbrev from_test : (a b : String) (t : Bool) → (a == b) ≡ t → Dec (a ≡ b)
from_test a b true e = yes ((eq_iff a b).0 e)
from_test a b false e = no (ne_of_test a b e)

unfoldable pub string_discrete : Discrete String
string_discrete a b = from_test a b (a == b) refl
