-- ===== src/Base/Finds.antt =====
-- Laws of the searches on texts.
use Prim.Native.Nat.{ℕ}
use mathlib.Core.Path.{◌≡◌, refl, sym}
use mathlib.Core.Logic.{◌≢◌}
use mathlib.Core.Option.{none, some}
use mathlib.Core.List.{List, [], ◌∷◌, ◌++◌}
use native.Mathlib.Omega.{arith}
use uidentity.Base.Lists.{All}
use uidentity.Base.Tests.{Bool-cases, ◌==◌}
use mathlib.Core.Logic.{inl, inr}
use uidentity.Base.Texts.{Bytes, Lacks, onto_first, split_first, split_on, strip, find_after}

pub split_first-append :
    (b : ℕ) (s t : Bytes) → Lacks b s → split_first b (s ++ b ∷ t) ≡ (s, some t)
unfolding split_first
split_first-append b [] t h = ground arith
split_first-append b (c ∷ s) t h = ground (arith, split_first-append b s t h.1)

pub split_first-Lacks : (b : ℕ) (s : Bytes) → Lacks b s → split_first b s ≡ (s, none)
unfolding split_first
split_first-Lacks b [] h = refl
split_first-Lacks b (c ∷ s) h = ground (arith, split_first-Lacks b s h.1)

pub split_on-append : (b : ℕ) (s t : Bytes) → Lacks b s → split_on b (s ++ b ∷ t) ≡ s ∷ split_on b t
unfolding split_on
split_on-append b [] t h = ground arith
split_on-append b (c ∷ s) t h = ground (arith, split_on-append b s t h.1)

pub split_on-Lacks : (b : ℕ) (s : Bytes) → Lacks b s → split_on b s ≡ s ∷ []
unfolding split_on
split_on-Lacks b [] h = refl
split_on-Lacks b (c ∷ s) h = ground (arith, split_on-Lacks b s h.1)

pub strip-append : (key t : Bytes) → strip key (key ++ t) ≡ some t
unfolding strip
strip-append [] t = refl
strip-append (k ∷ key) t = ground (arith, strip-append key t)

-- A key is found at once where the text starts with it.
pub find_after-append : (k : ℕ) (key t : Bytes) → find_after (k ∷ key) (k ∷ (key ++ t)) ≡ some t
unfolding find_after
find_after-append k key t = ground (arith, strip-append (k ∷ key) t)

-- A search for a key passes a byte that the key does not start with.
pub find_after-ne :
    (k c : ℕ) (key s : Bytes) → k ≢ c → find_after (k ∷ key) (c ∷ s) ≡ find_after (k ∷ key) s
unfolding find_after strip
find_after-ne k c key s h = ground arith

-- What was cut off in front is the key.
pub strip-some : (key s t : Bytes) → strip key s ≡ some t → s ≡ key ++ t
unfolding strip
strip-some [] s t h = cc
strip-some (k ∷ key) [] t h = cc
strip-some (k ∷ key) (c ∷ s) t h = ground (arith, strip-some key s t)

-- What holds of every byte of a text holds of the bytes of its parts.
pub split_first-All :
    (P : ℕ → Type 0) (b : ℕ) (s : Bytes)
    → All P s
    → All P (split_first b s).0 × ((t : Bytes) → (split_first b s).1 ≡ some t → All P t)
unfolding split_first
split_first-All P b [] h = (tt, λ t e. cc)
split_first-All P b (c ∷ s) (hc, hs) = elim (Bool-cases (c == b)) [
  | inl here ↦ rw (here, split_first) (tt, λ t e. let same : s ≡ t = cc in rw (sym same) hs)
  | inr later ↦
      let (front, back) = split_first-All P b s hs in rw (later, split_first) ((hc, front), back)
]

onto_first-All :
    (P : ℕ → Type 0) (c : ℕ) (ps : List Bytes)
    → P c
    → All (All P) ps
    → All (All P) (onto_first c ps)
unfolding onto_first
onto_first-All P c [] hc h = ((hc, tt), tt)
onto_first-All P c (p ∷ ps) hc (hp, h) = ((hc, hp), h)

pub split_on-All : (P : ℕ → Type 0) (b : ℕ) (s : Bytes) → All P s → All (All P) (split_on b s)
unfolding split_on
split_on-All P b [] h = (tt, tt)
split_on-All P b (c ∷ s) (hc, hs) = elim (Bool-cases (c == b)) [
  | inl cut ↦ rw (cut, split_on) (tt, split_on-All P b s hs)
  | inr other ↦ rw (other, split_on) (onto_first-All P c (split_on b s) hc (split_on-All P b s hs))
]
