-- ===== src/Json/SkipPrint.antt =====
-- skip_json_value on well-formed JSON: it ends, and stops right behind the value.
use uidentity.Base.{
  ℕ, zero, suc, ◌≤◌, Bool, true, false, [], ◌∷◌, ◌++◌, append_assoc, none, Bytes, is_space, ◌≡◌,
  ◌≢◌, refl, ap, ◌∙◌, inl, inr, arith, ok, length,
}
use uidentity.Json.Skip.{skip_ws, eat, skip_scalar, skip_entries, skip_json_value}
use uidentity.Json.Text.{
  Label, Value, text, scalar, empty_object, object, empty_array, array, Entries, last, more,
  print_label, print, print_entries, size, size_entries, size-le-length, IsBlank, IsBody, IsScalar,
  IsJson, IsEntries, IsStop,
}
use uidentity.Json.Rounds.{entries_last, entries_more, entries_empty, opening, value_entries}
use uidentity.Json.Steps.{
  skip_ws-append, skip_ws-stop, skip_ws-solid, skip_json_string-IsBody, skip_scalar-append,
  skip_scalar-stop, IsBlank-IsScalarByte, skip_json_value-skip_ws, label_step, closing,
  label_step-print, eat-entry, eat_self, print-head, append-ne-nil,
}

-- Where the scanner stops on a value with spaces behind it: a scalar takes those with it.
abbrev pub behind : Value → Bytes → Bytes → Bytes
behind (text s) w rest = w ++ rest
behind (scalar s) w rest = rest
behind (empty_object w') w rest = w ++ rest
behind (object es) w rest = w ++ rest
behind (empty_array w') w rest = w ++ rest
behind (array es) w rest = w ++ rest

pub skip_ws-behind :
    (v : Value) (w rest : Bytes) → IsBlank w → IsStop rest → skip_ws (behind v w rest) ≡ rest
skip_ws-behind (text s) w rest h k = skip_ws-append w rest h ∙ skip_ws-stop rest k
skip_ws-behind (scalar s) w rest h k = skip_ws-stop rest k
skip_ws-behind (empty_object w') w rest h k = skip_ws-append w rest h ∙ skip_ws-stop rest k
skip_ws-behind (object es) w rest h k = skip_ws-append w rest h ∙ skip_ws-stop rest k
skip_ws-behind (empty_array w') w rest h k = skip_ws-append w rest h ∙ skip_ws-stop rest k
skip_ws-behind (array es) w rest h k = skip_ws-append w rest h ∙ skip_ws-stop rest k

eat-closing-ne : (b : Bool) (rest : Bytes) → eat b',' (closing b ∷ rest) ≡ none
unfolding eat
eat-closing-ne true rest = refl
eat-closing-ne false rest = refl

closing-IsStop : (b : Bool) (rest : Bytes) → IsStop (closing b ∷ rest)
closing-IsStop true rest = inr (inl refl)
closing-IsStop false rest = inr (inr refl)

entry-ne-nil : (l : Label) (v : Value) (t : Bytes) → IsJson v → print_label l ++ (print v ++ t) ≢ []
entry-ne-nil l v t j =
    let (c, s, e, _, _, _) = print-head v j in rw e (append-ne-nil (print_label l) c (s ++ t))

value_text :
    (g : ℕ) (s t : Bytes) → IsBody s → skip_json_value (suc g) (b'"' ∷ (s ++ b'"' ∷ t)) ≡ ok t
unfolding skip_json_value skip_ws is_space
value_text g s t h = ap ok (skip_json_string-IsBody s t h)

value_scalar :
    (g : ℕ) (s w rest : Bytes)
    → IsScalar s
    → IsBlank w
    → IsStop rest
    → skip_json_value (suc g) (s ++ (w ++ rest)) ≡ ok rest
value_scalar g [] w rest j h k = absurd j
value_scalar g (c ∷ s) w rest (solid, q, o, a, body) h k =
    first_byte
    ∙ ap ok (
        skip_scalar-append (c ∷ s) (w ++ rest) body
        ∙ skip_scalar-append w rest (IsBlank-IsScalarByte w h)
        ∙ skip_scalar-stop rest k)
  where
    first_byte :
        skip_json_value (suc g) (c ∷ (s ++ (w ++ rest))) ≡ ok (skip_scalar (c ∷ (s ++ (w ++ rest))))
    first_byte =
        unfold skip_json_value in
        rw (skip_ws-solid c (s ++ (w ++ rest)) solid, skip_json_value) (ground arith)

value_empty :
    (b : Bool) (g : ℕ) (u t : Bytes)
    → IsBlank u
    → skip_json_value (suc (suc g)) (opening b ∷ (u ++ closing b ∷ t)) ≡ ok t
value_empty b g u t h =
    value_entries b (suc g) (u ++ closing b ∷ t)
    ∙ entries_empty _ (closing b) (label_step b) g (u ++ closing b ∷ t) t
        (append-ne-nil u (closing b) t)
        (rw (skip_ws-append u _ h, skip_ws-stop _ (closing-IsStop b t)) (eat_self (closing b) t))

mutual
  unfolding print size

  skip_value-print :
      (v : Value) (g : ℕ) (w rest : Bytes)
      → IsJson v
      → IsBlank w
      → IsStop rest
      → size v ≤ g
      → skip_json_value g (print v ++ (w ++ rest)) ≡ ok (behind v w rest)
  skip_value-print (text s) zero w rest j h k m = absurd (omega arith)
  skip_value-print (text s) (suc g) w rest j h k m =
      simp append_assoc (value_text g s (w ++ rest) j)
  skip_value-print (scalar s) zero w rest j h k m = absurd (omega arith)
  skip_value-print (scalar s) (suc g) w rest j h k m = value_scalar g s w rest j h k
  skip_value-print (empty_object u) zero w rest j h k m = absurd (omega arith)
  skip_value-print (empty_object u) (suc zero) w rest j h k m = absurd (omega arith)
  skip_value-print (empty_object u) (suc (suc g)) w rest j h k m =
      simp append_assoc (value_empty true g u (w ++ rest) j)
  skip_value-print (object es) zero w rest j h k m = absurd (omega arith)
  skip_value-print (object es) (suc g) w rest j h k m = simp append_assoc (
      value_entries true g _
      ∙ skip_entries-print es true g g (w ++ rest) j (omega arith) (omega arith))
  skip_value-print (empty_array u) zero w rest j h k m = absurd (omega arith)
  skip_value-print (empty_array u) (suc zero) w rest j h k m = absurd (omega arith)
  skip_value-print (empty_array u) (suc (suc g)) w rest j h k m =
      simp append_assoc (value_empty false g u (w ++ rest) j)
  skip_value-print (array es) zero w rest j h k m = absurd (omega arith)
  skip_value-print (array es) (suc g) w rest j h k m = simp append_assoc (
      value_entries false g _
      ∙ skip_entries-print es false g g (w ++ rest) j (omega arith) (omega arith))

  skip_entries-print :
      (es : Entries) (b : Bool) (g n : ℕ) (rest : Bytes)
      → IsEntries b es
      → size_entries es ≤ suc g
      → size_entries es ≤ n
      → skip_entries
          (skip_json_value g)
          (closing b)
          (label_step b)
          n
          (print_entries es ++ closing b ∷ rest)
        ≡ ok rest
  skip_entries-print (last l v w) b g zero rest j m m' = absurd (omega arith)
  skip_entries-print (last l v w) b g (suc n) rest j m m' = simp append_assoc (
      entries_last _ (closing b) (label_step b) n _ (behind v w (closing b ∷ rest)) rest
        (entry-ne-nil l v _ j.1) (eat-entry b l v _ j.0 j.1)
        (label_step-print b l g _ j.0
          ∙ skip_value-print v g w (closing b ∷ rest) j.1 j.2 (closing-IsStop b rest) (omega arith))
        (rw (skip_ws-behind v w _ j.2 (closing-IsStop b rest)) (eat-closing-ne b rest))
        (rw (skip_ws-behind v w _ j.2 (closing-IsStop b rest)) (eat_self (closing b) rest)))
  skip_entries-print (more l v w es) b g zero rest j m m' = absurd (omega arith)
  skip_entries-print (more l v w es) b g (suc n) rest j m m' =
      let tail = print_entries es ++ closing b ∷ rest in
      simp append_assoc (
        entries_more _ (closing b) (label_step b) n _ (behind v w (b',' ∷ tail)) tail
          (entry-ne-nil l v _ j.1) (eat-entry b l v _ j.0 j.1)
          (label_step-print b l g _ j.0
            ∙ skip_value-print v g w (b',' ∷ tail) j.1 j.2 (inl refl) (omega arith))
          (rw (skip_ws-behind v w (b',' ∷ tail) j.2 (inl refl)) (eat_self b',' tail))
        ∙ skip_entries-print es b g n rest j.3 (omega arith) (omega arith))

-- On a well-formed value, with spaces in front and behind, the scanner ends within fuel of the
-- value's length, and stops right behind the value, or behind its spaces where it is a scalar.
pub skip_json_value-print :
    (v : Value) (fuel : ℕ) (u w rest : Bytes)
    → IsJson v
    → IsBlank u
    → IsBlank w
    → IsStop rest
    → length (print v) ≤ fuel
    → skip_json_value fuel (u ++ (print v ++ (w ++ rest))) ≡ ok (behind v w rest)
skip_json_value-print v fuel u w rest j hu hw k m =
    skip_json_value-skip_ws fuel _ _ (skip_ws-append u _ hu)
    ∙ skip_value-print v fuel w rest j hw k (omega (arith, size-le-length v j))
