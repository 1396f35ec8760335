-- ===== src/Json/Hang.antt =====
-- Texts on which the loops of skip_json_value never end: a bracket of the other kind where a value is
-- expected is neither passed nor refused.
use uidentity.Base.{
  ℕ, zero, suc, Bool, true, false, [], ◌∷◌, ◌++◌, none, some, Bytes, is_space, ◌≡◌, refl, ◌∙◌, ap,
  arith, ok, err, Error, find_after, strip, split_first, split_first-append, Lacks,
}
use uidentity.Json.Skip.{
  skip_ws, skip_json_string, eat, skip_byte, skip_scalar, skip_key, skip_entries, skip_json_value,
}
use uidentity.Json.Text.{IsBlank}
use uidentity.Json.Steps.{
  skip_ws-append, label_step, closing, append-ne-nil, skip_json_value-skip_ws, skip_ws_idem,
}
use uidentity.Json.Extract.{quoted, search_value, extract_json_value}
use uidentity.Json.Rounds.{entries_same, entries_fail, opening, value_entries}

-- The bracket that closes the other kind of value.
abbrev pub wrong_closing : Bool → ℕ
wrong_closing true = b']'
wrong_closing false = b'}'

-- The scanner makes no step over it.
value_stuck :
    (b : Bool) (g : ℕ) (t : Bytes)
    → skip_json_value (suc g) (wrong_closing b ∷ t) ≡ ok (wrong_closing b ∷ t)
unfolding skip_json_value skip_ws is_space skip_scalar
value_stuck true g t = refl
value_stuck false g t = refl

skip_ws-wrong :
    (b : Bool) (w t : Bytes) → IsBlank w → skip_ws (w ++ wrong_closing b ∷ t) ≡ wrong_closing b ∷ t
skip_ws-wrong true w t h = skip_ws-append w _ h ∙ unfold skip_ws is_space in refl
skip_ws-wrong false w t h = skip_ws-append w _ h ∙ unfold skip_ws is_space in refl

label_stuck : (b : Bool) (t : Bytes) → label_step b (wrong_closing b ∷ t) ≡ wrong_closing b ∷ t
unfolding skip_key skip_byte eat skip_ws is_space skip_json_string
label_stuck true t = refl
label_stuck false t = refl

eat-wrong :
    (b : Bool) (t : Bytes)
    → (eat (closing b) (wrong_closing b ∷ t) ≡ none) × (eat b',' (wrong_closing b ∷ t) ≡ none)
unfolding eat
eat-wrong true t = (refl, refl)
eat-wrong false t = (refl, refl)

label_value :
    (b : Bool) (g : ℕ) (w t : Bytes)
    → IsBlank w
    → skip_json_value g (label_step b (skip_ws (w ++ wrong_closing b ∷ t)))
      ≡ skip_json_value g (wrong_closing b ∷ t)
label_value b g w t h = rw (skip_ws-wrong b w t h, label_stuck b t)

-- The loop comes back to where it stands, whatever its fuel.
entries_stuck :
    (b : Bool) (g n : ℕ) (w t : Bytes)
    → IsBlank w
    → skip_entries (skip_json_value g) (closing b) (label_step b) n (w ++ wrong_closing b ∷ t)
      ≡ err Error.out_of_fuel
entries_stuck b g zero w t h = unfold skip_entries in refl
entries_stuck b zero (suc n) w t h =
    entries_fail _ (closing b) (label_step b) n _ Error.out_of_fuel (append-ne-nil w _ t)
      (rw (skip_ws-wrong b w t h) (eat-wrong b t).0) (unfold skip_json_value in refl)
entries_stuck b (suc g) (suc n) w t h =
    entries_same _ (closing b) (label_step b) n _ (wrong_closing b ∷ t) (append-ne-nil w _ t)
      (rw (skip_ws-wrong b w t h) (eat-wrong b t).0)
      (label_value b (suc g) w t h ∙ value_stuck b g t)
      (rw (skip_ws-wrong b [] t tt) (eat-wrong b t).1)
      (rw (skip_ws-wrong b [] t tt) (eat-wrong b t).0)
    ∙ ap (skip_entries _ (closing b) (label_step b) n) (skip_ws-wrong b [] t tt)
    ∙ entries_stuck b (suc g) n [] t tt

-- On an object whose first member starts with `]`, and on an array whose first element starts with
-- `}`, no fuel is enough: the loop never ends.
pub skip_json_value_hangs :
    (b : Bool) (fuel : ℕ) (u w t : Bytes)
    → IsBlank u
    → IsBlank w
    → skip_json_value fuel (u ++ opening b ∷ (w ++ wrong_closing b ∷ t)) ≡ err Error.out_of_fuel
skip_json_value_hangs b zero u w t hu hw = unfold skip_json_value in refl
skip_json_value_hangs b (suc g) u w t hu hw =
    skip_json_value-skip_ws (suc g) _ _ (skip_ws-append u _ hu)
    ∙ value_entries b g _
    ∙ entries_stuck b g g w t hw

search_value_fails :
    (fuel n k : ℕ) (key json rest value : Bytes)
    → find_after (k ∷ key) json ≡ some rest
    → (split_first b':' rest).1 ≡ some value
    → skip_json_value fuel (skip_ws value) ≡ err Error.out_of_fuel
    → search_value fuel n (k ∷ key) json ≡ err Error.out_of_fuel
search_value_fails fuel zero k key json rest value f s v = unfold search_value in refl
search_value_fails fuel (suc n) k key [] rest value f s v = unfold find_after strip in cc f
search_value_fails fuel (suc n) k key (c ∷ t) rest value f s v =
    unfold search_value in ground (arith, f, s, v)

-- So extract_json_value never ends where such a text stands behind the first quoted key.
pub extract_json_value_hangs :
    (b : Bool) (fuel : ℕ) (name json m u w t : Bytes)
    → find_after (quoted name) json
      ≡ some (m ++ b':' ∷ (u ++ opening b ∷ (w ++ wrong_closing b ∷ t)))
    → Lacks b':' m
    → IsBlank u
    → IsBlank w
    → extract_json_value fuel json name ≡ err Error.out_of_fuel
unfolding extract_json_value
extract_json_value_hangs b fuel name json m u w t f c hu hw =
    search_value_fails fuel fuel b'"' (name ++ b'"' ∷ []) json _ _ f
      (ap (λ p. p.1) (split_first-append b':' m _ c))
      (skip_json_value-skip_ws fuel _ _ (skip_ws_idem _) ∙ skip_json_value_hangs b fuel u w t hu hw)
