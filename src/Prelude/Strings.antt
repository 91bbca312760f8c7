-- ===== src/Prelude/Strings.antt =====
-- Python's `str` as a list of code points, with the methods that the sources call.
use Prim.Native.Nat.{ℕ}
use Prim.Native.Char.{code}
use Prim.Native.String.{String}
use mathlib.Core.Path.{◌≡◌, refl}
use mathlib.Core.Logic.{◌↔◌}
use mathlib.Core.Bool.{Bool, true, false, ◌&&◌, ◌||◌}
use mathlib.Core.Option.{Option, none, some}
use mathlib.Core.List.{List, [], ◌∷◌, reverse}
use native.Mathlib.Omega.{arith}
use panamacompra_collector_b.Prelude.Tests.{leb, eqb, if◌then◌else◌}

abbrev pub Text : Type 0
Text = List ℕ

-- A literal. It stays shut in proofs, which see a constant of which nothing is known.
unfoldable pub codes : String → Text
codes String.[] = []
codes (String.◌∷◌ c s) = code c ∷ codes s

infix 50 ◌==◌
unfoldable pub ◌==◌ : Text → Text → Bool
◌==◌ [] [] = true
◌==◌ [] (b ∷ t) = false
◌==◌ (a ∷ s) [] = false
◌==◌ (a ∷ s) (b ∷ t) = eqb a b && s == t

==→eq : (s t : Text) → (s == t) ≡ true → s ≡ t
unfolding ◌==◌
==→eq [] [] h = refl
==→eq [] (b ∷ t) h = ground arith
==→eq (a ∷ s) [] h = ground arith
==→eq (a ∷ s) (b ∷ t) h = ground (arith, ==→eq s t)

pub ==_refl : (s : Text) → (s == s) ≡ true
unfolding ◌==◌
==_refl [] = refl
==_refl (a ∷ s) = ground (arith, ==_refl s)

pub ==_iff : (s t : Text) → ((s == t) ≡ true) ↔ (s ≡ t)
==_iff s t = (==→eq s t, λ e. rw e (==_refl t))

-- `not s` on a string.
abbrev pub is_empty : Text → Bool
is_empty [] = true
is_empty (c ∷ s) = false

-- `bool(value)` and `value or ""` on a column that may be NULL.
abbrev pub truthy : Option Text → Bool
truthy none = false
truthy (some []) = false
truthy (some (c ∷ s)) = true

abbrev pub or_empty : Option Text → Text
or_empty none = []
or_empty (some s) = s

-- SQL's COALESCE of two values.
abbrev pub coalesce {ℓ} : {A : Type ℓ} → Option A → Option A → Option A
coalesce none b = b
coalesce (some a) b = some a

-- `str.isspace` of one character: the code points that `str.strip` and `str.split` treat as space.
unfoldable pub is_space : ℕ → Bool
is_space c =
    leb 9 c && leb c 13
    || leb 28 c && leb c 32
    || eqb c 133
    || eqb c 160
    || eqb c 5760
    || leb 8192 c && leb c 8202
    || eqb c 8232
    || eqb c 8233
    || eqb c 8239
    || eqb c 8287
    || eqb c 12288

-- `text.lstrip(...)`, for the characters that a test accepts.
unfoldable pub lstrip_by : (ℕ → Bool) → Text → Text
lstrip_by p [] = []
lstrip_by p (c ∷ s) = let rest = lstrip_by p s in if p c then rest else c ∷ s

unfoldable pub strip_by : (ℕ → Bool) → Text → Text
unfolding lstrip_by
strip_by p s = reverse (lstrip_by p (reverse (lstrip_by p s)))

unfoldable pub strip : Text → Text
unfolding strip_by is_space
strip s = strip_by is_space s

unfoldable pub starts_with : Text → Text → Bool
starts_with s [] = true
starts_with [] (c ∷ p) = false
starts_with (a ∷ s) (c ∷ p) = eqb a c && starts_with s p

unfoldable pub ends_with : Text → Text → Bool
unfolding starts_with
ends_with s p = starts_with (reverse s) (reverse p)

-- `needle in haystack`
unfoldable pub contains : Text → Text → Bool
unfolding starts_with
contains [] p = starts_with [] p
contains (c ∷ s) p = starts_with (c ∷ s) p || contains s p

-- `needle in list`
unfoldable pub member : Text → List Text → Bool
unfolding ◌==◌
member k [] = false
member k (x ∷ xs) = x == k || member k xs
