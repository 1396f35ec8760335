-- ===== src/Jwt/Roles.antt =====
-- The roles of a token, as a set.
use uidentity.Base.{
  ℕ, zero, suc, true, List, [], ◌∷◌, Option, none, some, Bytes, codes, leb, length, eq_bytes_refl,
  All, Result, ok, err, ◌>>=◌, ◌≡◌, refl, ◌∙◌, sym, ap, arith, Bool-cases, inl, inr,
}
use mathlib.Core.Path.{subst}
use uidentity.Json.Skip.{skip_ws, skip_json_string, skip_json_value, skip_byte}
use uidentity.Json.Strings.{contains_string, append_unique}
use uidentity.Json.Extract.{between, extract_json_object}
use uidentity.Json.Arrays.{at_end, tail_of, extract_json_string_array}
use uidentity.Json.Words.{IsUnique, append_unique-IsUnique, contains_string-append_unique}
use uidentity.Jwt.Keys.{starts_object}
use uidentity.Jwt.Claims.{client_roles, resource_roles, realm_roles, extract_all_roles}

-- Every text of the second list stands in the first.
abbrev pub Includes : List Bytes → List Bytes → Type 0
Includes roles = All (λ v. contains_string roles v ≡ true)

-- What a set of roles may grow into.
abbrev Grows : List Bytes → List Bytes → Type 0
Grows roles after =
    (IsUnique roles → IsUnique after)
    × ((v : Bytes) → contains_string roles v ≡ true → contains_string after v ≡ true)

abbrev GrowsTo : List Bytes → Result (List Bytes) → Type 0
GrowsTo roles (ok after) = Grows roles after
GrowsTo roles (err e) = Unit {0}

Grows-refl : (roles : List Bytes) → Grows roles roles
Grows-refl roles = (λ u. u, λ v h. h)

append_unique-Grows : (roles more : List Bytes) → Grows roles (append_unique roles more)
append_unique-Grows roles more = (
  append_unique-IsUnique roles more,
  λ v h. contains_string-append_unique roles more v ∙ rw h refl,
)

GrowsTo-bind :
    {A : Type 0} (roles : List Bytes) (m : Result A) (f : A → Result (List Bytes))
    → ((a : A) → GrowsTo roles (f a))
    → GrowsTo roles (m >>= f)
GrowsTo-bind roles (ok a) f h = h a
GrowsTo-bind roles (err e) f h = tt

Grows-trans :
    (roles next : List Bytes) (r : Result (List Bytes))
    → Grows roles next
    → GrowsTo next r
    → GrowsTo roles r
Grows-trans roles next (err e) g h = tt
Grows-trans roles next (ok after) g h = (λ u. h.0 (g.0 u), λ v c. h.1 v (g.1 v c))

GrowsTo-bind_roles :
    (roles : List Bytes) (m : Result (List Bytes)) (f : List Bytes → Result (List Bytes))
    → GrowsTo roles m
    → ((next : List Bytes) → GrowsTo next (f next))
    → GrowsTo roles (m >>= f)
GrowsTo-bind_roles roles (ok next) f g h = Grows-trans roles next (f next) g (h next)
GrowsTo-bind_roles roles (err e) f g h = tt

-- A member that may be missing.
GrowsTo-member :
    (roles : List Bytes) (m : Result (Option Bytes)) (f : Bytes → Result (List Bytes))
    → ((object : Bytes) → GrowsTo roles (f object))
    → GrowsTo roles (
        m >>= λ found. elim found as (λ _. Result (List Bytes)) [
          | none ↦ ok roles
          | some object ↦ f object
        ])
GrowsTo-member roles (err e) f h = tt
GrowsTo-member roles (ok none) f h = Grows-refl roles
GrowsTo-member roles (ok (some object)) f h = h object

client_roles-GrowsTo :
    (fuel : ℕ) (roles : List Bytes) (value : Bytes) → GrowsTo roles (client_roles fuel roles value)
unfolding client_roles
client_roles-GrowsTo fuel roles value = elim (Bool-cases (starts_object value)) [
  | inl object ↦
      rw (object, client_roles)
        (GrowsTo-bind roles (extract_json_string_array fuel value (codes "roles")) _
          λ more. append_unique-Grows roles more)
  | inr other ↦ rw (other, client_roles) (Grows-refl roles)
]

resource_roles-GrowsTo :
    (fuel n : ℕ) (roles : List Bytes) (t : Bytes) → GrowsTo roles (resource_roles fuel n roles t)
unfolding resource_roles
resource_roles-GrowsTo fuel zero roles t = tt
resource_roles-GrowsTo fuel (suc n) roles [] = Grows-refl roles
resource_roles-GrowsTo fuel (suc n) roles (c ∷ []) = Grows-refl roles
resource_roles-GrowsTo fuel (suc n) roles (c ∷ d ∷ s) =
    let key = skip_ws (c ∷ d ∷ s) in
    let key_end = skip_json_string key in
    let value = skip_ws (skip_byte b':' (skip_ws key_end)) in
    elim (Bool-cases (at_end b'}' key)) [
      | inl ended ↦ rw (ended, resource_roles) (Grows-refl roles)
      | inr more ↦ elim (Bool-cases (leb (length key) (length key_end))) [
        | inl stuck ↦ rw (more, stuck, resource_roles) (Grows-refl roles)
        | inr read ↦
            rw (more, read, resource_roles)
              (GrowsTo-bind roles (skip_json_value fuel value) _ λ value_end.
                elim (Bool-cases (leb (length value) (length value_end))) [
                  | inl short ↦ rw short (Grows-refl roles)
                  | inr long ↦ rw long (
                      GrowsTo-bind_roles roles (client_roles fuel roles (between value value_end)) _
                        (client_roles-GrowsTo fuel roles (between value value_end))
                        λ next. resource_roles-GrowsTo fuel n next _)
                ])
      ]
    ]

GrowsTo-ok :
    (roles after : List Bytes) (r : Result (List Bytes))
    → GrowsTo roles r
    → r ≡ ok after
    → Grows roles after
GrowsTo-ok roles after r g e = subst (GrowsTo roles) e g

realm_roles-GrowsTo : (fuel : ℕ) (payload : Bytes) → GrowsTo [] (realm_roles fuel payload)
unfolding realm_roles
realm_roles-GrowsTo fuel payload =
    GrowsTo-member [] (extract_json_object fuel payload (codes "realm_access")) _ λ object.
      GrowsTo-bind [] (extract_json_string_array fuel object (codes "roles")) _
        λ more. append_unique-Grows [] more

contains_string_cons :
    (v w : Bytes) (vs : List Bytes)
    → contains_string vs w ≡ true
    → contains_string (v ∷ vs) w ≡ true
unfolding contains_string
contains_string_cons v w vs h = ground arith

Includes-of :
    (roles more : List Bytes)
    → ((v : Bytes) → contains_string more v ≡ true → contains_string roles v ≡ true)
    → Includes roles more
unfolding contains_string
Includes-of roles [] h = tt
Includes-of roles (v ∷ vs) h = (
  h v (ground (arith, eq_bytes_refl v)),
  Includes-of roles vs (λ w c. h w (contains_string_cons v w vs c)),
)

bind_ok :
    (m : Result (List Bytes)) (f : List Bytes → Result (List Bytes)) (roles : List Bytes)
    → m ≡ ok roles
    → (m >>= f) ≡ f roles
bind_ok m f roles e = ap (λ r. r >>= f) e

-- The roles that extract_all_roles returns hold no text twice, and hold all those of the realm.
pub extract_all_roles-IsUnique :
    (fuel : ℕ) (payload : Bytes) (realm roles : List Bytes)
    → realm_roles fuel payload ≡ ok realm
    → extract_all_roles fuel payload ≡ ok roles
    → IsUnique roles × Includes roles realm
unfolding extract_all_roles
extract_all_roles-IsUnique fuel payload realm roles r h =
    let first = GrowsTo-ok [] realm _ (realm_roles-GrowsTo fuel payload) r in
    let rest =
      GrowsTo-member realm (extract_json_object fuel payload (codes "resource_access"))
        (λ object. resource_roles fuel fuel realm (tail_of object))
        λ object. resource_roles-GrowsTo fuel fuel realm (tail_of object) in
    let grown =
      GrowsTo-ok realm roles _ rest (sym (bind_ok (realm_roles fuel payload) _ realm r) ∙ h) in
    (grown.0 (first.0 tt), Includes-of roles realm grown.1)
