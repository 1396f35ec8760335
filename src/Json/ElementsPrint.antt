-- ===== src/Json/ElementsPrint.antt =====
-- split_json_array_elements on well-formed arrays: the loop over the elements.
use uidentity.Base.{
  ℕ, zero, suc, ◌≤◌, ◌<◌, true, false, List, [], ◌∷◌, ◌++◌, append_assoc, Bytes, length,
  length-append, ok, ◌≡◌, ◌≢◌, refl, ◌∙◌, ap, arith, inl, inr,
}
use uidentity.Json.Skip.{skip_ws, skip_json_value, eat, skip_byte}
use uidentity.Json.Extract.{between}
use uidentity.Json.Arrays.{at_end, split_elements, is_bracketed, split_json_array_elements}
use uidentity.Json.Text.{
  blank, key, Value, text, scalar, empty_object, object, empty_array, array, Entries, last, more,
  print, print_entries, size, size_entries, size-le-length, IsBlank, IsJson, IsEntries, IsStop,
}
use uidentity.Json.Steps.{skip_ws-append, skip_ws-solid, print-head, append-ne-nil}
use uidentity.Json.SkipPrint.{behind, skip_ws-behind, skip_json_value-print}
use uidentity.Json.Lookup.{
  raw_value, raw_value-behind, between-append, length-raw_value, split_last-append,
}

-- The raw elements of an array.
abbrev pub elements : Entries → List Bytes
elements (last l v w) = raw_value v w ∷ []
elements (more l v w es) = raw_value v w ∷ elements es

-- One round of the loop.
split_elements_step :
    (fuel n : ℕ) (t pos end : Bytes) (rest : List Bytes)
    → 1 < length t
    → skip_ws t ≡ pos
    → at_end b']' pos ≡ false
    → skip_json_value fuel pos ≡ ok end
    → length end < length pos
    → split_elements fuel n (skip_byte b',' (skip_ws end)) ≡ ok rest
    → split_elements fuel (suc n) t ≡ ok (between pos end ∷ rest)
unfolding split_elements
split_elements_step fuel n [] pos end rest m p a s l r = absurd (omega arith)
split_elements_step fuel n (c ∷ []) pos end rest m p a s l r = absurd (omega arith)
split_elements_step fuel n (c ∷ d ∷ t) pos end rest m p a s l r = ground (arith, p, a, s, r)

split_elements_one : (fuel n c : ℕ) → split_elements fuel (suc n) (c ∷ []) ≡ ok []
unfolding split_elements
split_elements_one fuel n c = refl

at_end-ne : (b c : ℕ) (s : Bytes) → c ≢ b → s ≢ [] → at_end b (c ∷ s) ≡ false
unfolding at_end
at_end-ne b c [] n m = absurd (m refl)
at_end-ne b c (d ∷ s) n m = ground arith

skip_byte_same : (b : ℕ) (t : Bytes) → skip_byte b (b ∷ t) ≡ t
unfolding skip_byte eat
skip_byte_same b t = ground arith

skip_byte_other : (b c : ℕ) (t : Bytes) → c ≢ b → skip_byte b (c ∷ t) ≡ c ∷ t
unfolding skip_byte eat
skip_byte_other b c t h = ground arith

-- The round that reads one entry, before a byte that ends it.
entry_step :
    (fuel n : ℕ) (u : Bytes) (v : Value) (w : Bytes) (c : ℕ) (t : Bytes) (rest : List Bytes)
    → IsBlank u
    → IsJson v
    → IsBlank w
    → IsStop (c ∷ t)
    → length (print v) ≤ fuel
    → split_elements fuel n (skip_byte b',' (c ∷ t)) ≡ ok rest
    → split_elements fuel (suc n) (u ++ (print v ++ (w ++ c ∷ t))) ≡ ok (raw_value v w ∷ rest)
entry_step fuel n u v w c t rest hu j hw k enough r =
    let (d, s, e, solid, _, opens) = print-head v j in
    let pos = print v ++ (w ++ c ∷ t) in
    let at : pos ≡ d ∷ (s ++ (w ++ c ∷ t)) = ap (λ p. p ++ (w ++ c ∷ t)) e in
    let there : skip_ws (u ++ pos) ≡ pos =
      skip_ws-append u pos hu ∙ rw at (skip_ws-solid d (s ++ (w ++ c ∷ t)) solid) in
    let more_there : at_end b']' pos ≡ false = rw at (
      at_end-ne b']' d (s ++ (w ++ c ∷ t)) opens
        (λ q. append-ne-nil (s ++ w) c t (append_assoc s w (c ∷ t) ∙ q))) in
    let parts : pos ≡ raw_value v w ++ behind v w (c ∷ t) = raw_value-behind v w (c ∷ t) in
    let shorter : length (behind v w (c ∷ t)) < length pos = omega (
      arith,
      ap length parts,
      length-append (raw_value v w) (behind v w (c ∷ t)),
      length-raw_value v w j,
    ) in
    split_elements_step fuel n (u ++ pos) pos (behind v w (c ∷ t)) rest
      (omega (
        arith,
        length-append u pos,
        ap length at,
        length-append s (w ++ c ∷ t),
        length-append w (c ∷ t),
      ))
      there more_there (skip_json_value-print v fuel [] w (c ∷ t) j tt hw k enough) shorter
      (rw (skip_ws-behind v w (c ∷ t) hw k) r)
    ∙ ap (λ p. ok (between p (behind v w (c ∷ t)) ∷ rest)) parts
    ∙ ap (λ p. ok (p ∷ rest)) (between-append (raw_value v w) (behind v w (c ∷ t)))

size-pos : (v : Value) → 0 < size v
unfolding size
size-pos (text s) = omega arith
size-pos (scalar s) = omega arith
size-pos (empty_object w) = omega arith
size-pos (object es) = omega arith
size-pos (empty_array w) = omega arith
size-pos (array es) = omega arith

split_elements-print :
    (es : Entries) (fuel n : ℕ)
    → IsEntries false es
    → length (print_entries es) ≤ fuel
    → size_entries es ≤ n
    → split_elements fuel n (print_entries es ++ b']' ∷ []) ≡ ok (elements es)
unfolding print size
split_elements-print (last (key x k u y) v w) fuel n j h m = absurd j.0
split_elements-print (more (key x k u y) v w es) fuel n j h m = absurd j.0
split_elements-print (last (blank u) v w) fuel zero j h m = absurd (omega arith)
split_elements-print (last (blank u) v w) fuel (suc zero) j h m = absurd (omega (arith, size-pos v))
split_elements-print (last (blank u) v w) fuel (suc (suc n)) j h m =
    ap (split_elements fuel (suc (suc n))) (
      append_assoc u (print v ++ w) (b']' ∷ [])
      ∙ ap (λ t. u ++ t) (append_assoc (print v) w (b']' ∷ [])))
    ∙ entry_step fuel (suc n) u v w b']' [] [] j.0 j.1 j.2 (inr (inr refl))
        (omega (arith, length-append u (print v ++ w), length-append (print v) w))
        (rw (skip_byte_other b',' b']' [] (omega arith)) (split_elements_one fuel n b']'))
split_elements-print (more (blank u) v w es) fuel zero j h m = absurd (omega arith)
split_elements-print (more (blank u) v w es) fuel (suc n) j h m =
    let tail = print_entries es ++ b']' ∷ [] in
    let whole : print_entries (more (blank u) v w es) ++ b']' ∷ []
        ≡ u ++ (print v ++ (w ++ b',' ∷ tail)) =
      simp append_assoc refl in
    ap (split_elements fuel (suc n)) whole
    ∙ entry_step fuel n u v w b',' tail (elements es) j.0 j.1 j.2 (inl refl)
        (omega (
          arith,
          length-append u (print v ++ (w ++ b',' ∷ print_entries es)),
          length-append (print v) (w ++ b',' ∷ print_entries es),
        ))
        (rw (skip_byte_same b',' tail) (
          split_elements-print es fuel n j.3
            (omega (
              arith,
              length-append u (print v ++ (w ++ b',' ∷ print_entries es)),
              length-append (print v) (w ++ b',' ∷ print_entries es),
              length-append w (b',' ∷ print_entries es),
            ))
            (omega arith)))

array_IsBracketed : (s : Bytes) → is_bracketed (b'[' ∷ (s ++ b']' ∷ [])) ≡ true
unfolding is_bracketed
array_IsBracketed s = ground (arith, split_last-append s b']')

pub split_json_array_elements-print :
    (es : Entries) (fuel : ℕ)
    → IsJson (array es)
    → length (print (array es)) ≤ fuel
    → split_json_array_elements fuel (print (array es)) ≡ ok (elements es)
unfolding split_json_array_elements print
split_json_array_elements-print es fuel j h = ground (
  arith,
  array_IsBracketed (print_entries es),
  split_elements-print es fuel fuel j (omega (arith, length-append (print_entries es) (b']' ∷ [])))
      (unfold size in omega (arith, size-le-length (array es) j)),
)
