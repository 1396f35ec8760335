-- ===== src/Oidc/Uri/Parts.antt =====
-- The scheme, the host and the port of a written address, at split_scheme and split_authority.
use uidentity.Base.{
  ℕ, ◌-◌, ◌^◌, ◌<◌, [], ◌∷◌, ◌++◌, append-nil, none, some, Bytes, codes, ◌==◌, length,
  length-append, take, take-append, find_after, find_after-ne, find_after-append, Lacks, All,
  decimal, to_string, ok, ◌≡◌, ◌≢◌, refl, ◌∙◌, sym, ap, arith, Bool-cases, inl, inr,
}
use mathlib.Core.Path.{subst}
use uidentity.Base.Int.{pos}
use uidentity.Json.Integers.{stoi_or_throw}
use uidentity.Json.Integers.Written.{
  IsDigit, decimal-IsDigit, decimal-ne-nil, stoi_or_throw-to_string,
}
use uidentity.Oidc.Uri.{cast_uint16, split_at_last, split_scheme, split_authority, port_suffix}

-- The port's text is of digits.
digits-Lacks : (b : ℕ) (s : Bytes) → All IsDigit s → (IsDigit b → ⊥) → Lacks b s
digits-Lacks b [] h n = tt
digits-Lacks b (c ∷ s) (d, h) n = (λ e. n (subst IsDigit e d), digits-Lacks b s h n)

pub port_suffix-Lacks : (b port : ℕ) → b ≢ b':' → (IsDigit b → ⊥) → Lacks b (port_suffix port)
unfolding port_suffix to_string
port_suffix-Lacks b port ne n = elim (Bool-cases (port == 0)) [
  | inl zero ↦ rw (zero, port_suffix) tt
  | inr given ↦
      rw (given, port_suffix)
        (λ e. ne (sym e), digits-Lacks b (decimal 20 port) (decimal-IsDigit 20 port) n)
]

split_at_last-Lacks : (b : ℕ) (s : Bytes) → Lacks b s → split_at_last b s ≡ none
unfolding split_at_last
split_at_last-Lacks b [] h = refl
split_at_last-Lacks b (c ∷ s) (n, h) = ground (arith, split_at_last-Lacks b s h)

split_at_last-append :
    (b : ℕ) (s t : Bytes) → Lacks b t → split_at_last b (s ++ b ∷ t) ≡ some (s, t)
unfolding split_at_last
split_at_last-append b [] t h = ground (arith, split_at_last-Lacks b t h)
split_at_last-append b (c ∷ s) t h = ground (arith, split_at_last-append b s t h)

-- The host and the port come back.
split_authority_digits :
    (host digits : Bytes) (port : ℕ)
    → digits ≢ []
    → split_at_last b':' (host ++ b':' ∷ digits) ≡ some (host, digits)
    → stoi_or_throw digits ≡ ok (pos port)
    → port < 2 ^ 16
    → split_authority (host ++ b':' ∷ digits) ≡ ok (host, port)
unfolding split_authority cast_uint16
split_authority_digits host [] port n s r h = absurd (n refl)
split_authority_digits host (c ∷ digits) port n s r h = ground (arith, s, r)

split_authority-none :
    (host : Bytes) → split_at_last b':' host ≡ none → split_authority host ≡ ok (host, 0)
unfolding split_authority
split_authority-none host h = ground (arith, h)

pub split_authority-port_suffix :
    (host : Bytes) (port : ℕ)
    → Lacks b':' host
    → port < 2 ^ 16
    → split_authority (host ++ port_suffix port) ≡ ok (host, port)
unfolding port_suffix to_string
split_authority-port_suffix host port n h = elim (Bool-cases (port == 0)) [
  | inl zero ↦
      let at : port ≡ 0 = ground arith in
      rw (at, append-nil host) (split_authority-none host (split_at_last-Lacks b':' host n))
  | inr given ↦
      rw (given, port_suffix)
        (split_authority_digits host (decimal 20 port) port (decimal-ne-nil 19 port)
          (split_at_last-append b':' host (decimal 20 port)
            (digits-Lacks b':' _ (decimal-IsDigit 20 port) (λ d. omega arith)))
          (unfold to_string in stoi_or_throw-to_string (pos port) (omega arith)) h)
]

find_after_scheme :
    (scheme rest : Bytes)
    → Lacks b':' scheme
    → find_after (codes "://") (scheme ++ (codes "://" ++ rest)) ≡ some rest
find_after_scheme [] rest h = find_after-append b':' (codes "//") rest
find_after_scheme (c ∷ scheme) rest (n, h) =
    find_after-ne b':' c (codes "//") (scheme ++ (codes "://" ++ rest)) (λ e. n (sym e))
    ∙ find_after_scheme scheme rest h

found_scheme :
    (url rest : Bytes)
    → find_after (codes "://") url ≡ some rest
    → split_scheme url ≡ (take (length url - length rest - 3) url, rest)
unfolding split_scheme
found_scheme url rest h = ground arith

pub split_scheme-append :
    (scheme rest : Bytes)
    → Lacks b':' scheme
    → split_scheme (scheme ++ (codes "://" ++ rest)) ≡ (scheme, rest)
unfolding split_scheme
split_scheme-append scheme rest h =
    let e : length (scheme ++ (codes "://" ++ rest)) - length rest - 3 ≡ length scheme =
      omega (arith, length-append scheme (codes "://" ++ rest)) in
    found_scheme (scheme ++ (codes "://" ++ rest)) rest (find_after_scheme scheme rest h)
    ∙ ap (λ n. (take n (scheme ++ (codes "://" ++ rest)), rest)) e
    ∙ ap (λ s. (s, rest)) (take-append scheme (codes "://" ++ rest))
