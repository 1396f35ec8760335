-- ===== src/Json/Rounds.antt =====
-- One round of the loop over members or elements, by what it meets.
use uidentity.Base.{
  ℕ, suc, Bool, true, false, [], ◌∷◌, none, some, Bytes, is_space, ◌≡◌, ◌≢◌, refl, arith, Result,
  ok, err, Error,
}
use uidentity.Json.Skip.{skip_ws, eat, skip_entries, skip_json_value}
use uidentity.Json.Steps.{label_step, closing}

module _ (value : Bytes → Result Bytes) (close : ℕ) (label : Bytes → Bytes) (n : ℕ) where
  -- One round of the loop that ends at the closing bracket.
  pub entries_last :
      (t end rest : Bytes)
      → t ≢ []
      → eat close (skip_ws t) ≡ none
      → value (label (skip_ws t)) ≡ ok end
      → eat b',' (skip_ws end) ≡ none
      → eat close (skip_ws end) ≡ some rest
      → skip_entries value close label (suc n) t ≡ ok rest
  unfolding skip_entries
  entries_last [] end rest h _ _ _ _ = absurd (h refl)
  entries_last (c ∷ t) end rest h e v m k = ground arith

  -- One round that goes on behind a comma.
  pub entries_more :
      (t end rest : Bytes)
      → t ≢ []
      → eat close (skip_ws t) ≡ none
      → value (label (skip_ws t)) ≡ ok end
      → eat b',' (skip_ws end) ≡ some rest
      → skip_entries value close label (suc n) t ≡ skip_entries value close label n rest
  unfolding skip_entries
  entries_more [] end rest h _ _ _ = absurd (h refl)
  entries_more (c ∷ t) end rest h e v m = ground arith

  pub entries_empty :
      (t rest : Bytes)
      → t ≢ []
      → eat close (skip_ws t) ≡ some rest
      → skip_entries value close label (suc n) t ≡ ok rest
  unfolding skip_entries
  entries_empty [] rest h _ = absurd (h refl)
  entries_empty (c ∷ t) rest h e = ground arith

  -- One round in which nothing is passed.
  pub entries_same :
      (t end : Bytes)
      → t ≢ []
      → eat close (skip_ws t) ≡ none
      → value (label (skip_ws t)) ≡ ok end
      → eat b',' (skip_ws end) ≡ none
      → eat close (skip_ws end) ≡ none
      → skip_entries value close label (suc n) t ≡ skip_entries value close label n (skip_ws end)
  unfolding skip_entries
  entries_same [] end h _ _ _ _ = absurd (h refl)
  entries_same (c ∷ t) end h e v m k = ground arith

  pub entries_fail :
      (t : Bytes) (e : Error)
      → t ≢ []
      → eat close (skip_ws t) ≡ none
      → value (label (skip_ws t)) ≡ err e
      → skip_entries value close label (suc n) t ≡ err e
  unfolding skip_entries
  entries_fail [] e h _ _ = absurd (h refl)
  entries_fail (c ∷ t) e h n v = ground arith

abbrev pub opening : Bool → ℕ
opening true = b'{'
opening false = b'['

pub value_entries :
    (b : Bool) (g : ℕ) (t : Bytes)
    → skip_json_value (suc g) (opening b ∷ t)
      ≡ skip_entries (skip_json_value g) (closing b) (label_step b) g t
unfolding skip_json_value skip_ws is_space
value_entries true g t = refl
value_entries false g t = refl
