-- ===== src/Json/Words.antt =====
-- split_ws against the fields between separators, and append_unique against lists without repetition.
use uidentity.Base.{
  ℕ, true, false, ◌||◌, List, [], ◌∷◌, ◌++◌, append_assoc, append-nil, Bytes, is_space, All,
  eq_bytes_iff, if◌then◌else◌, ◌≡◌, ◌≢◌, refl, ◌∙◌, sym, ap, arith, Bool-cases, inl, inr,
}
use uidentity.Json.Strings.{is_separator, split_token, split_ws, contains_string, append_unique}

-- The fields between the separators: the first one, and the others.
abbrev pub fields : Bytes → Bytes × List Bytes
fields [] = ([], [])
fields (c ∷ s) =
    let (field, others) = fields s in
    if is_separator c then ([], field ∷ others) else (c ∷ field, others)

abbrev pub keep : Bytes → List Bytes → List Bytes
keep [] others = others
keep (c ∷ s) others = (c ∷ s) ∷ others

abbrev pub keep_all : List Bytes → List Bytes
keep_all [] = []
keep_all (field ∷ others) = keep field (keep_all others)

-- The fields that are not empty.
abbrev pub words : Bytes → List Bytes
words s = let (field, others) = fields s in keep field (keep_all others)

-- A vertical tab and a form feed are spaces for `skip_ws`, and no separators.
abbrev pub IsPlain : ℕ → Type 0
IsPlain c = (c ≢ 11) × (c ≢ 12)

separator_space : (c : ℕ) → IsPlain c → is_separator c ≡ is_space c
unfolding is_separator is_space
separator_space c h = ground arith

mutual
  unfolding split_token

  between_tokens : (s : Bytes) → All IsPlain s → split_token s [] ≡ words s
  between_tokens [] h = refl
  between_tokens (c ∷ s) (p, h) = elim (Bool-cases (is_space c)) [
    | inl space ↦
        let separator : is_separator c ≡ true = separator_space c p ∙ space in
        ground (arith, between_tokens s h)
    | inr other ↦
        let no_separator : is_separator c ≡ false = separator_space c p ∙ other in
        ground (arith, in_token s c [] h)
  ]

  in_token :
      (s : Bytes) (d : ℕ) (token : Bytes)
      → All IsPlain s
      → split_token s (d ∷ token)
        ≡ (let (field, others) = fields s in (d ∷ (token ++ field)) ∷ keep_all others)
  in_token [] d token h = ap (λ t. (d ∷ t) ∷ []) (sym (append-nil token))
  in_token (c ∷ s) d token (p, h) = elim (Bool-cases (is_separator c)) [
    | inl separator ↦ ground (arith, between_tokens s h, append-nil token)
    | inr other ↦
        ground (arith, in_token s d (token ++ c ∷ []) h, append_assoc token (c ∷ []) (fields s).0)
  ]

-- Where there is no vertical tab and no form feed, split_ws returns the fields between spaces, tabs,
-- carriage returns and line feeds that are not empty, in their order.
pub split_ws-words : (s : Bytes) → All IsPlain s → split_ws s ≡ words s
unfolding split_ws
split_ws-words s h = between_tokens s h

-- No text stands twice.
abbrev pub IsUnique : List Bytes → Type 0
IsUnique [] = Unit
IsUnique (v ∷ vs) = (contains_string vs v ≡ false) × IsUnique vs

contains_string-append :
    (vs ws : List Bytes) (v : Bytes)
    → contains_string (vs ++ ws) v ≡ (contains_string vs v || contains_string ws v)
unfolding contains_string
contains_string-append [] ws v = refl
contains_string-append (w ∷ vs) ws v = ground (arith, contains_string-append vs ws v)

IsUnique-snoc :
    (vs : List Bytes) (v : Bytes)
    → contains_string vs v ≡ false
    → IsUnique vs
    → IsUnique (vs ++ v ∷ [])
unfolding contains_string
IsUnique-snoc [] v h u = (refl, tt)
IsUnique-snoc (w ∷ vs) v h (n, u) = (
  ground (arith, contains_string-append vs (v ∷ []) w, eq_bytes_iff v w, eq_bytes_iff w v),
  IsUnique-snoc vs v (ground arith) u,
)

-- append_unique leaves no text twice, and holds what was there and what was added.
pub append_unique-IsUnique :
    (target more : List Bytes) → IsUnique target → IsUnique (append_unique target more)
unfolding append_unique
append_unique-IsUnique target [] u = u
append_unique-IsUnique target (v ∷ vs) u = elim (Bool-cases (contains_string target v)) [
  | inl there ↦ rw (there, append_unique) (append_unique-IsUnique target vs u)
  | inr fresh ↦
      rw (fresh, append_unique)
        (append_unique-IsUnique (target ++ v ∷ []) vs (IsUnique-snoc target v fresh u))
]

pub contains_string-append_unique :
    (target more : List Bytes) (v : Bytes)
    → contains_string (append_unique target more) v
      ≡ (contains_string target v || contains_string more v)
unfolding append_unique contains_string
contains_string-append_unique target [] v = ground arith
contains_string-append_unique target (w ∷ ws) v = elim (Bool-cases (contains_string target w)) [
  | inl there ↦ ground (arith, contains_string-append_unique target ws v, eq_bytes_iff w v)
  | inr fresh ↦ ground (
    arith,
    contains_string-append_unique (target ++ w ∷ []) ws v,
    contains_string-append target (w ∷ []) v,
  )
]
