-- ===== src/Prelude/Text.antt =====
-- The equality of strings, and the order of Go's strings.Compare.
use Prim.Native.Char.{code}
use Prim.Native.String.{String}
use mathlib.Core.Path.{◌≡◌, refl}
use text.Mathlib.Text.{◌==◌ as text_eq}
use text.Mathlib.TextEquality.{eq_iff}
use mathlib.Core.Bool.{Bool, true, false}
use native.Mathlib.Omega.{arith}
use zrepl.Prelude.Tests.{ltb, ◌==◌, if◌then◌else◌}

-- s == t
abbrev pub str_eq : String → String → Bool
str_eq s t = text_eq s t

pub str_eq→eq : (s t : String) → str_eq s t ≡ true → s ≡ t
str_eq→eq s t h = (eq_iff s t).0 h

pub str_eq_refl : (s : String) → str_eq s s ≡ true
str_eq_refl s = (eq_iff s s).1 refl

-- strings.Compare(s, t) == -1
unfoldable pub string_less : String → String → Bool
string_less String.[] String.[] = false
string_less String.[] (String.◌∷◌ d t) = true
string_less (String.◌∷◌ c s) String.[] = false
string_less (String.◌∷◌ c s) (String.◌∷◌ d t) =
    let rest = string_less s t in
    if ltb (code c) (code d) then true else if code c == code d then rest else false

pub string_less_asymm : (s t : String) → string_less s t ≡ true → string_less t s ≡ false
unfolding string_less
string_less_asymm String.[] String.[] h = refl
string_less_asymm String.[] (String.◌∷◌ d t) h = refl
string_less_asymm (String.◌∷◌ c s) String.[] h = ground arith
string_less_asymm (String.◌∷◌ c s) (String.◌∷◌ d t) h = ground (arith, string_less_asymm s t)

-- If neither step goes down, nor does the whole way.
pub string_less_trans :
    (r s t : String) → string_less s r ≡ false → string_less t s ≡ false → string_less t r ≡ false
unfolding string_less
string_less_trans String.[] s String.[] h k = refl
string_less_trans String.[] s (String.◌∷◌ e t) h k = refl
string_less_trans (String.◌∷◌ c r) String.[] t h k = ground arith
string_less_trans (String.◌∷◌ c r) (String.◌∷◌ d s) String.[] h k = ground arith
string_less_trans (String.◌∷◌ c r) (String.◌∷◌ d s) (String.◌∷◌ e t) h k =
    ground (arith, string_less_trans r s t)
