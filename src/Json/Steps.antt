-- ===== src/Json/Steps.antt =====
-- How each part of the scanner passes its part of a well-formed text.
use uidentity.Base.{
  ℕ, zero, suc, Bool, true, false, [], ◌∷◌, ◌++◌, append_assoc, none, some, Bytes, is_space, All,
  ◌≡◌, ◌≢◌, refl, ◌∙◌, arith,
}
use uidentity.Json.Skip.{
  skip_ws, skip_string_body, skip_json_string, eat, skip_byte, skip_scalar, skip_key,
  skip_json_value,
}
use uidentity.Json.Text.{
  Label, blank, key, Value, text, scalar, empty_object, object, empty_array, array, print_label,
  print, IsBlank, IsBody, done, plain, escape, IsScalarByte, IsLabel, IsJson, IsStop,
}

pub skip_ws-append : (w t : Bytes) → IsBlank w → skip_ws (w ++ t) ≡ skip_ws t
unfolding skip_ws
skip_ws-append [] t h = refl
skip_ws-append (c ∷ w) t h = ground (arith, skip_ws-append w t h.1)

pub skip_ws-stop : (t : Bytes) → IsStop t → skip_ws t ≡ t
unfolding skip_ws
skip_ws-stop [] h = refl
skip_ws-stop (c ∷ t) h = ground arith

pub skip_ws-solid : (c : ℕ) (t : Bytes) → is_space c ≡ false → skip_ws (c ∷ t) ≡ c ∷ t
unfolding skip_ws
skip_ws-solid c t h = ground arith

pub skip_string_body-IsBody :
    {s : Bytes} (t : Bytes) → IsBody s → skip_string_body false (s ++ b'"' ∷ t) ≡ t
unfolding skip_string_body
skip_string_body-IsBody t done = refl
skip_string_body-IsBody t (plain c h k r) = ground (arith, skip_string_body-IsBody t r)
skip_string_body-IsBody t (escape b c e r) = ground (arith, skip_string_body-IsBody t r)

pub skip_json_string-IsBody :
    (s t : Bytes) → IsBody s → skip_json_string (b'"' ∷ (s ++ b'"' ∷ t)) ≡ t
unfolding skip_json_string
skip_json_string-IsBody s t h = skip_string_body-IsBody t h

pub skip_scalar-append : (s t : Bytes) → All IsScalarByte s → skip_scalar (s ++ t) ≡ skip_scalar t
unfolding skip_scalar
skip_scalar-append [] t h = refl
skip_scalar-append (c ∷ s) t h = ground (arith, skip_scalar-append s t h.1)

pub skip_scalar-stop : (t : Bytes) → IsStop t → skip_scalar t ≡ t
unfolding skip_scalar
skip_scalar-stop [] h = refl
skip_scalar-stop (c ∷ t) h = ground arith

pub IsBlank-IsScalarByte : (w : Bytes) → IsBlank w → All IsScalarByte w
unfolding is_space
IsBlank-IsScalarByte [] h = tt
IsBlank-IsScalarByte (c ∷ w) h = (ground arith, IsBlank-IsScalarByte w h.1)

-- A value is read from its first byte that is no space.
pub skip_json_value-skip_ws :
    (g : ℕ) (s t : Bytes) → skip_ws s ≡ skip_ws t → skip_json_value g s ≡ skip_json_value g t
unfolding skip_json_value
skip_json_value-skip_ws zero s t e = refl
skip_json_value-skip_ws (suc g) s t e = rw (e, skip_json_value)

pub skip_ws_idem : (t : Bytes) → skip_ws (skip_ws t) ≡ skip_ws t
unfolding skip_ws
skip_ws_idem [] = refl
skip_ws_idem (c ∷ t) = ground (arith, skip_ws_idem t)

-- The step from a label to its value.
abbrev pub label_step : Bool → Bytes → Bytes
label_step true = skip_key
label_step false = λ t. t

abbrev pub closing : Bool → ℕ
closing true = b'}'
closing false = b']'

skip_byte_self : (b : ℕ) (t : Bytes) → skip_byte b (b ∷ t) ≡ t
unfolding skip_byte
skip_byte_self b t = ground arith

pub skip_key-print :
    (w k u v t : Bytes)
    → IsLabel true (key w k u v)
    → skip_key (skip_ws (print_label (key w k u v) ++ t)) ≡ v ++ t
unfolding skip_key
skip_key-print w k u v t (hw, hk, hu, hv) = simp append_assoc (
    rw
      (
        skip_ws-append w _ hw,
        skip_ws-solid b'"' _ quote_solid,
        skip_json_string-IsBody k _ hk,
        skip_ws-append u _ hu,
        skip_ws-solid b':' _ colon_solid,
      )
      (skip_byte_self b':' (v ++ t)))
  where
    quote_solid : is_space b'"' ≡ false
    quote_solid = unfold is_space in refl

    colon_solid : is_space b':' ≡ false
    colon_solid = unfold is_space in refl

pub label_step-print :
    (b : Bool) (l : Label) (g : ℕ) (t : Bytes)
    → IsLabel b l
    → skip_json_value g (label_step b (skip_ws (print_label l ++ t))) ≡ skip_json_value g t
label_step-print true (blank w) g t h = absurd h
label_step-print true (key w k u v) g t h =
    rw (skip_key-print w k u v t h) (skip_json_value-skip_ws g _ t (skip_ws-append v t h.3))
label_step-print false (blank w) g t h =
    skip_json_value-skip_ws g _ t (skip_ws_idem (w ++ t) ∙ skip_ws-append w t h)
label_step-print false (key w k u v) g t h = absurd h

-- A printed value starts with a byte that neither is a space nor closes anything.
pub print-head :
    (v : Value)
    → IsJson v
    → (c : ℕ) × (s : Bytes) × (print v ≡ c ∷ s) × (is_space c ≡ false) × (c ≢ b'}') × (c ≢ b']')
unfolding print is_space
print-head (text s) h = (b'"', _, refl, refl, omega arith, omega arith)
print-head (scalar []) h = absurd h
print-head (scalar (c ∷ s)) h = (c, s, refl, h.0, h.4.0.1, h.4.0.2)
print-head (empty_object w) h = (b'{', _, refl, refl, omega arith, omega arith)
print-head (object es) h = (b'{', _, refl, refl, omega arith, omega arith)
print-head (empty_array w) h = (b'[', _, refl, refl, omega arith, omega arith)
print-head (array es) h = (b'[', _, refl, refl, omega arith, omega arith)

-- So the loop does not take an entry for the closing bracket.
pub eat-entry :
    (b : Bool) (l : Label) (v : Value) (t : Bytes)
    → IsLabel b l
    → IsJson v
    → eat (closing b) (skip_ws (print_label l ++ (print v ++ t))) ≡ none
eat-entry true (blank w) v t h j = absurd h
eat-entry true (key w k u x) v t h j =
    simp append_assoc (rw (skip_ws-append w _ h.0) (unfold eat skip_ws is_space in refl))
eat-entry false (blank w) v t h j =
    let (c, s, e, solid, _, open_) = print-head v j in
    rw (skip_ws-append w _ h, e, skip_ws-solid c (s ++ t) solid) (not_eaten c (s ++ t) open_)
  where
    not_eaten : (c : ℕ) (t : Bytes) → c ≢ b']' → eat b']' (c ∷ t) ≡ none
    not_eaten c t h = unfold eat in ground arith
eat-entry false (key w k u x) v t h j = absurd h

pub eat_self : (b : ℕ) (t : Bytes) → eat b (b ∷ t) ≡ some t
unfolding eat
eat_self b t = ground arith

pub append-ne-nil : (s : Bytes) (c : ℕ) (t : Bytes) → s ++ c ∷ t ≢ []
append-ne-nil [] c t e = cc
append-ne-nil (d ∷ s) c t e = cc
