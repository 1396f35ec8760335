-- ===== src/Json/Text.antt =====
-- JSON texts by the grammar of RFC 8259, spaces included, as the scanner is meant to read them: trees,
-- what they are written as, and when they are well formed.
use uidentity.Base.{
  ℕ, suc, ◌+◌, ◌≤◌, Bool, true, false, [], ◌∷◌, ◌++◌, Bytes, is_space, All, ◌≡◌, ◌≢◌, ◌⊎◌, length,
  length-append, arith,
}

-- What stands before a value: spaces, or a key with its colon.
pub data Label : Type 0 where
  blank : Bytes → Label
  key : Bytes → Bytes → Bytes → Bytes → Label

mutual
  pub data Value : Type 0 where
    text : Bytes → Value
    scalar : Bytes → Value
    empty_object : Bytes → Value
    object : Entries → Value
    empty_array : Bytes → Value
    array : Entries → Value

  pub data Entries : Type 0 where
    last : Label → Value → Bytes → Entries
    more : Label → Value → Bytes → Entries → Entries

abbrev pub print_label : Label → Bytes
print_label (blank w) = w
print_label (key w k u v) = w ++ b'"' ∷ (k ++ b'"' ∷ (u ++ b':' ∷ v))

unfoldable mutual
  pub print : Value → Bytes
  print (text s) = b'"' ∷ (s ++ b'"' ∷ [])
  print (scalar s) = s
  print (empty_object w) = b'{' ∷ (w ++ b'}' ∷ [])
  print (object es) = b'{' ∷ (print_entries es ++ b'}' ∷ [])
  print (empty_array w) = b'[' ∷ (w ++ b']' ∷ [])
  print (array es) = b'[' ∷ (print_entries es ++ b']' ∷ [])

  pub print_entries : Entries → Bytes
  print_entries (last l v w) = print_label l ++ (print v ++ w)
  print_entries (more l v w es) = print_label l ++ (print v ++ (w ++ b',' ∷ print_entries es))

-- How many nodes a tree has: the fuel that it takes.
unfoldable mutual
  pub size : Value → ℕ
  size (text s) = 1
  size (scalar s) = 1
  size (empty_object w) = 2
  size (object es) = suc (size_entries es)
  size (empty_array w) = 2
  size (array es) = suc (size_entries es)

  pub size_entries : Entries → ℕ
  size_entries (last l v w) = suc (size v)
  size_entries (more l v w es) = suc (size v + size_entries es)

abbrev pub IsBlank : Bytes → Type 0
IsBlank = All (λ c. is_space c ≡ true)

-- The body of a string literal: no bare quote, and a byte behind every backslash.
pub data IsBody : Bytes → Type 0 where
  done : IsBody []
  plain : (c : ℕ) {s : Bytes} → c ≢ b'"' → c ≢ b'\\' → IsBody s → IsBody (c ∷ s)
  escape : (b c : ℕ) {s : Bytes} → b ≡ b'\\' → IsBody s → IsBody (b ∷ c ∷ s)

abbrev pub IsScalarByte : ℕ → Type 0
IsScalarByte c = (c ≢ b',') × (c ≢ b'}') × (c ≢ b']')

-- A number or a literal: its first byte opens no other kind of value.
abbrev pub IsScalar : Bytes → Type 0
IsScalar [] = ⊥
IsScalar (c ∷ s) =
    (is_space c ≡ false) × (c ≢ b'"') × (c ≢ b'{') × (c ≢ b'[') × All IsScalarByte (c ∷ s)

-- Labels of objects (`true`) and of arrays.
abbrev pub IsLabel : Bool → Label → Type 0
IsLabel true (blank w) = ⊥
IsLabel true (key w k u v) = IsBlank w × IsBody k × IsBlank u × IsBlank v
IsLabel false (blank w) = IsBlank w
IsLabel false (key w k u v) = ⊥

abbrev mutual
  pub IsJson : Value → Type 0
  IsJson (text s) = IsBody s
  IsJson (scalar s) = IsScalar s
  IsJson (empty_object w) = IsBlank w
  IsJson (object es) = IsEntries true es
  IsJson (empty_array w) = IsBlank w
  IsJson (array es) = IsEntries false es

  pub IsEntries : Bool → Entries → Type 0
  IsEntries b (last l v w) = IsLabel b l × IsJson v × IsBlank w
  IsEntries b (more l v w es) = IsLabel b l × IsJson v × IsBlank w × IsEntries b es

-- What may follow a value and the spaces behind it: the end, or a byte that ends a scalar.
abbrev pub IsStop : Bytes → Type 0
IsStop [] = Unit
IsStop (c ∷ s) = (c ≡ b',') ⊎ (c ≡ b'}') ⊎ (c ≡ b']')

mutual
  unfolding size print

  size-le : (v : Value) → IsJson v → size v ≤ length (print v)
  size-le (text s) h = omega (arith, length-append s (b'"' ∷ []))
  size-le (scalar []) h = absurd h
  size-le (scalar (c ∷ s)) h = omega arith
  size-le (empty_object w) h = omega (arith, length-append w (b'}' ∷ []))
  size-le (object es) h =
      omega (arith, length-append (print_entries es) (b'}' ∷ []), size_entries-le true es h)
  size-le (empty_array w) h = omega (arith, length-append w (b']' ∷ []))
  size-le (array es) h =
      omega (arith, length-append (print_entries es) (b']' ∷ []), size_entries-le false es h)

  size_entries-le :
      (b : Bool) (es : Entries) → IsEntries b es → size_entries es ≤ suc (length (print_entries es))
  size_entries-le b (last l v w) h = omega (
    arith,
    length-append (print_label l) (print v ++ w),
    length-append (print v) w,
    size-le v h.1,
  )
  size_entries-le b (more l v w es) h = omega (
    arith,
    length-append (print_label l) (print v ++ (w ++ b',' ∷ print_entries es)),
    length-append (print v) (w ++ b',' ∷ print_entries es),
    length-append w (b',' ∷ print_entries es),
    size-le v h.1,
    size_entries-le b es h.3,
  )

pub size-le-length : (v : Value) → IsJson v → size v ≤ length (print v)
size-le-length v h = size-le v h
