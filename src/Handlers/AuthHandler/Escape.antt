-- ===== src/Handlers/AuthHandler/Escape.antt =====
-- json_escape, as the JSON scanner of the library reads it.
use uidentity.Base.{
  ℕ, ◌≤◌, Bool, true, false, [], ◌∷◌, ◌++◌, append_assoc, some, Bytes, codes, ◌==◌, if◌then◌else◌,
  find_after, strip, ok, ◌≡◌, ◌≢◌, refl, ◌∙◌, sym, ap, arith, inl, inr, length,
}
use uidentity.Json.Strings.{unescape_body, unescape_byte}
use uidentity.Json.Text.{IsBody, done, plain, escape, text, print}
use uidentity.Json.Extract.{quoted, extract_json_string}
use uidentity.Json.Lookup.{extract_json_string_found}
use uidentity.Handlers.AuthHandler.{escape_byte, json_escape, error_body}

unescape-escape_byte :
    (ch : ℕ) (s : Bytes) → unescape_body false (escape_byte ch ++ s) ≡ ch ∷ unescape_body false s
unfolding unescape_body unescape_byte escape_byte
unescape-escape_byte ch s = ground arith

-- Undoing the escapes of json_escape gives the text back.
pub unescape_body-json_escape : (s : Bytes) → unescape_body false (json_escape s) ≡ s
unfolding json_escape
unescape_body-json_escape [] = unfold unescape_body in refl
unescape_body-json_escape (c ∷ s) =
    unescape-escape_byte c (json_escape s) ∙ ap (λ r. c ∷ r) (unescape_body-json_escape s)

branch :
    (b : Bool) (d : ℕ) (t s : Bytes)
    → IsBody s
    → (b ≡ false → IsBody (t ++ s))
    → IsBody ((if b then b'\\' ∷ d ∷ [] else t) ++ s)
branch true d t s h k = escape b'\\' d refl h
branch false d t s h k = k refl

differs : (a b : ℕ) → (a == b) ≡ false → a ≢ b
differs a b h = ground arith

escape_byte-IsBody : (ch : ℕ) (s : Bytes) → IsBody s → IsBody (escape_byte ch ++ s)
unfolding escape_byte
escape_byte-IsBody ch s h = branch (ch == b'\\') b'\\' _ s h λ slash.
    branch (ch == b'"') b'"' _ s h λ quote. branch (ch == 8) b'b' _ s h λ _.
      branch (ch == 12) b'f' _ s h λ _. branch (ch == 10) b'n' _ s h λ _.
        branch (ch == 13) b'r' _ s h λ _.
          branch (ch == 9) b't' _ s h
            λ _. plain ch (differs ch b'"' quote) (differs ch b'\\' slash) h

json_escape-IsBody : (s : Bytes) → IsBody (json_escape s)
unfolding json_escape
json_escape-IsBody [] = done
json_escape-IsBody (c ∷ s) = escape_byte-IsBody c (json_escape s) (json_escape-IsBody s)

error_found :
    (error : Bytes)
    → find_after (quoted (codes "error")) (error_body error)
      ≡ some (b':' ∷ (print (text (json_escape error)) ++ codes "}"))
unfolding error_body find_after strip print
error_found error =
    ap (λ t. some (b':' ∷ b'"' ∷ t))
      (sym (append_assoc (json_escape error) (codes "\"") (codes "}")))

-- The error body of a callback reads back: whatever the text of the error is, the library's own
-- extract_json_string finds it under `error`, within fuel of the length of the escaped text and its quotes.
pub extract_json_string-error_body :
    (error : Bytes) (fuel : ℕ)
    → length (print (text (json_escape error))) ≤ fuel
    → extract_json_string fuel (error_body error) (codes "error") ≡ ok (some error)
extract_json_string-error_body error fuel enough =
    extract_json_string_found (json_escape error) fuel (codes "error") (error_body error) [] [] []
      (codes "}") (error_found error) tt (json_escape-IsBody error) tt tt (inr (inl refl)) enough
    ∙ ap (λ s. ok (some s)) (unescape_body-json_escape error)
