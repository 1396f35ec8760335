-- ===== src/Base/Maps.antt =====
-- `std::unordered_map` with string keys, as an association list. Nothing reads its order.
use mathlib.Core.Path.{◌≡◌, refl, ap}
use mathlib.Core.Bool.{Bool, true}
use mathlib.Core.Option.{Option, none, some}
use mathlib.Core.List.{List, [], ◌∷◌}
use native.Mathlib.Omega.{arith}
use uidentity.Base.Tests.{if◌then◌else◌}
use uidentity.Base.Texts.{Bytes, eq_bytes, eq_bytes_iff, eq_bytes→eq}

abbrev pub Dict {ℓ} : Type ℓ → Type ℓ
Dict V = List (Bytes × V)

module _ {ℓ} {V : Type ℓ} where
  unfoldable pub lookup : Bytes → Dict V → Option V
  lookup k [] = none
  lookup k ((j, v) ∷ m) = if eq_bytes j k then some v else lookup k m

  unfoldable pub insert_or_assign : Bytes → V → Dict V → Dict V
  insert_or_assign k v [] = (k, v) ∷ []
  insert_or_assign k v ((j, w) ∷ m) =
      if eq_bytes j k then (k, v) ∷ m else (j, w) ∷ insert_or_assign k v m

  unfoldable pub erase : Bytes → Dict V → Dict V
  erase k [] = []
  erase k ((j, v) ∷ m) = let rest = erase k m in if eq_bytes j k then rest else (j, v) ∷ rest

  -- The loop that erases every entry that passes a test.
  unfoldable pub erase_if : (V → Bool) → Dict V → Dict V
  erase_if p [] = []
  erase_if p ((j, v) ∷ m) = let rest = erase_if p m in if p v then rest else (j, v) ∷ rest

  abbrev pub drop_if : (V → Bool) → Option V → Option V
  drop_if p none = none
  drop_if p (some v) = if p v then none else some v

  -- No key stands twice, as in the source's map.
  abbrev pub IsDict : Dict V → Type ℓ
  IsDict [] = Unit
  IsDict ((k, v) ∷ m) = (lookup k m ≡ none) × IsDict m

  pub lookup-insert :
      (k j : Bytes) (v : V) (m : Dict V)
      → lookup j (insert_or_assign k v m) ≡ (if eq_bytes k j then some v else lookup j m)
  unfolding lookup insert_or_assign
  lookup-insert k j v [] = refl
  lookup-insert k j v ((i, w) ∷ m) =
      ground (arith, eq_bytes_iff k j, eq_bytes_iff i k, eq_bytes_iff i j, lookup-insert k j v m)

  pub lookup-erase :
      (k j : Bytes) (m : Dict V)
      → lookup j (erase k m) ≡ (if eq_bytes k j then none else lookup j m)
  unfolding lookup erase
  lookup-erase k j [] = ground arith
  lookup-erase k j ((i, w) ∷ m) =
      ground (arith, eq_bytes_iff k j, eq_bytes_iff i k, eq_bytes_iff i j, lookup-erase k j m)

  lookup_congr : (k j : Bytes) (m : Dict V) → eq_bytes k j ≡ true → lookup k m ≡ lookup j m
  lookup_congr k j m h = ap (λ i. lookup i m) (eq_bytes→eq k j h)

  pub lookup-erase_if :
      (p : V → Bool) (k : Bytes) (m : Dict V)
      → IsDict m
      → lookup k (erase_if p m) ≡ drop_if p (lookup k m)
  unfolding lookup erase_if
  lookup-erase_if p k [] h = refl
  lookup-erase_if p k ((j, v) ∷ m) h = ground (arith, lookup-erase_if p k m h.1, lookup_congr j k m)

  pub erase_if-IsDict : (p : V → Bool) (m : Dict V) → IsDict m → IsDict (erase_if p m)
  unfolding erase_if
  erase_if-IsDict p [] h = tt
  erase_if-IsDict p ((j, v) ∷ m) h =
      ground (arith, erase_if-IsDict p m h.1, lookup-erase_if p j m h.1)

  pub insert-IsDict : (k : Bytes) (v : V) (m : Dict V) → IsDict m → IsDict (insert_or_assign k v m)
  unfolding insert_or_assign
  insert-IsDict k v [] h = (unfold lookup in refl, tt)
  insert-IsDict k v ((j, w) ∷ m) h = ground (
    arith,
    insert-IsDict k v m h.1,
    lookup-insert k j v m,
    lookup_congr j k m,
    eq_bytes_iff j k,
    eq_bytes_iff k j,
  )

  pub erase-IsDict : (k : Bytes) (m : Dict V) → IsDict m → IsDict (erase k m)
  unfolding erase
  erase-IsDict k [] h = tt
  erase-IsDict k ((j, v) ∷ m) h = ground (arith, erase-IsDict k m h.1, lookup-erase k j m)
