-- ===== src/Base/Texts.antt =====
-- A `std::string` is a list of bytes. A position in a text is the suffix that starts there, so
-- `find` and `substr` come as the two parts on either side of what is found.
use Prim.Native.Nat.{ℕ, ◌<◌}
use Prim.Native.Char.{code}
use Prim.Native.String.{String}
use mathlib.Core.Path.{◌≡◌, refl}
use mathlib.Core.Logic.{◌≢◌, ◌↔◌}
use mathlib.Core.Bool.{Bool, true, false, ◌&&◌, ◌||◌}
use mathlib.Core.Option.{Option, none, some}
use mathlib.Core.List.{List, [], ◌∷◌}
use native.Mathlib.Omega.{arith}
use uidentity.Base.Tests.{◌==◌, leb, if◌then◌else◌}
use uidentity.Base.Lists.{All}

abbrev pub Bytes : Type 0
Bytes = List ℕ

-- The bytes of an ASCII literal.
abbrev pub codes : String → Bytes
codes String.[] = []
codes (String.◌∷◌ c s) = code c ∷ codes s

abbrev pub is_empty {ℓ} : {A : Type ℓ} → List A → Bool
is_empty [] = true
is_empty (c ∷ s) = false

pub is_empty-ne {ℓ} : {A : Type ℓ} (s : List A) → s ≢ [] → is_empty s ≡ false
is_empty-ne [] h = absurd (h refl)
is_empty-ne (c ∷ s) h = refl

-- `operator==` on strings.
unfoldable pub eq_bytes : Bytes → Bytes → Bool
eq_bytes [] [] = true
eq_bytes [] (d ∷ t) = false
eq_bytes (c ∷ s) [] = false
eq_bytes (c ∷ s) (d ∷ t) = (c == d) && eq_bytes s t

pub eq_bytes_refl : (s : Bytes) → eq_bytes s s ≡ true
unfolding eq_bytes
eq_bytes_refl [] = refl
eq_bytes_refl (c ∷ s) = ground (arith, eq_bytes_refl s)

pub eq_bytes→eq : (s t : Bytes) → eq_bytes s t ≡ true → s ≡ t
unfolding eq_bytes
eq_bytes→eq [] [] h = refl
eq_bytes→eq [] (d ∷ t) h = cc
eq_bytes→eq (c ∷ s) [] h = cc
eq_bytes→eq (c ∷ s) (d ∷ t) h = ground (arith, eq_bytes→eq s t)

pub eq_bytes_iff : (s t : Bytes) → (eq_bytes s t ≡ true) ↔ (s ≡ t)
eq_bytes_iff s t = (eq_bytes→eq s t, λ e. rw e (eq_bytes_refl t))

-- `std::isspace` in the classic locale.
unfoldable pub is_space : ℕ → Bool
is_space c = (c == 32) || (leb 9 c && leb c 13)

abbrev pub Lacks : ℕ → Bytes → Type 0
Lacks b = All (λ c. c ≢ b)

abbrev pub IsByte : ℕ → Type 0
IsByte c = c < 256

-- `find(c)` with `substr` on both sides: what stands before the first `c`, and what follows it.
unfoldable pub split_first : ℕ → Bytes → Bytes × Option Bytes
split_first b [] = ([], none)
split_first b (c ∷ s) =
    let rest = split_first b s in if c == b then ([], some s) else (c ∷ rest.0, rest.1)

unfoldable pub onto_first : ℕ → List Bytes → List Bytes
onto_first c [] = (c ∷ []) ∷ []
onto_first c (p ∷ ps) = (c ∷ p) ∷ ps

-- The parts between the separators: the loop `end = raw.find(sep, start); …; start = end + 1`.
unfoldable pub split_on : ℕ → Bytes → List Bytes
unfolding onto_first
split_on b [] = [] ∷ []
split_on b (c ∷ s) = let rest = split_on b s in if c == b then [] ∷ rest else onto_first c rest

-- The text behind `key`, if `s` starts with it.
unfoldable pub strip : Bytes → Bytes → Option Bytes
strip [] s = some s
strip (k ∷ ks) [] = none
strip (k ∷ ks) (c ∷ s) = let rest = strip ks s in if k == c then rest else none

-- `find(key)`: the text behind the first occurrence.
unfoldable pub find_after : Bytes → Bytes → Option Bytes
find_after key [] = strip key []
find_after key (c ∷ s) =
    let later = find_after key s in
    elim (strip key (c ∷ s)) [ some rest ↦ some rest | none ↦ later ]
