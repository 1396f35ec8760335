-- ===== src/Validator/Tasks/Invariant.antt =====
-- What holds of every call, however the moves of the calls are ordered.
use uidentity.Base.{ℕ, Bytes, ◌==◌, ◌≡◌, refl, ◌∙◌, arith, inl, inr, Bool-cases}
use mathlib.Core.Path.{subst}
use uidentity.Base.Int.{ℤ}
use uidentity.Http.{AuthConfig, Response}
use uidentity.Jwt.Signature.{Openssl}
use uidentity.Validator.Stages.{Header}
use uidentity.Validator.Keys.{HttpClient, JwksCache}
use uidentity.Validator.Validate.Soundness.{front-Rejects}
use uidentity.Validator.Tasks.{
  Task, look_up, receive, store, System, update, Step, looks_up, receives, stores, Reach, start,
  later, token_of,
}
use uidentity.Validator.Tasks.Sound.{
  HoldsPublished, IsSound, look_up-IsSound, receive-IsSound, store-IsSound,
}

module _ {W : Type 0} (send : HttpClient W) (fuel : ℕ) (cfg : AuthConfig) (ssl : Openssl) where
  -- The call of a token, with its last reading of the clock.
  abbrev IsCall : Bytes → ℤ → Task → Type 0
  IsCall token now task = (token_of task ≡ token) × IsSound send fuel cfg ssl now task

  abbrev IsSafe : (ℕ → Bytes) → System W → Type 0
  IsSafe tokens s =
      HoldsPublished send fuel cfg ssl s.cache
      × ((i : ℕ) → IsCall (tokens i) (s.read_at i) (s.task i))

  moved :
      (tokens : ℕ → Bytes) (s : System W) (i : ℕ) (now : ℤ) (t : Task)
      → ((j : ℕ) → IsCall (tokens j) (s.read_at j) (s.task j))
      → IsCall (tokens i) now t
      → (j : ℕ) → IsCall (tokens j) (update s.read_at i now j) (update s.task i t j)
  unfolding update
  moved tokens s i now t g h j = elim (Bool-cases (i == j)) [
    | inl same ↦ let at : j ≡ i = ground arith in rw (same, update, at) h
    | inr other ↦ rw (other, update) (g j)
  ]

  stays :
      (tokens : ℕ → Bytes) (s : System W) (i : ℕ) (t : Task)
      → ((j : ℕ) → IsCall (tokens j) (s.read_at j) (s.task j))
      → IsCall (tokens i) (s.read_at i) t
      → (j : ℕ) → IsCall (tokens j) (s.read_at j) (update s.task i t j)
  unfolding update
  stays tokens s i t g h j = elim (Bool-cases (i == j)) [
    | inl same ↦ let at : j ≡ i = ground arith in rw (same, update, at) h
    | inr other ↦ rw (other, update) (g j)
  ]

  token_of-look_up :
      (steady now : ℤ) (token : Bytes) (cache : JwksCache)
      → token_of (look_up send fuel cfg ssl steady now token cache) ≡ token
  unfolding look_up
  token_of-look_up steady now token cache = ground arith

  token_of-receive :
      (token : Bytes) (header : Header) (w : W)
      → token_of (receive send fuel cfg ssl token header w).1 ≡ token
  unfolding receive
  token_of-receive token header w = ground arith

  token_of-store :
      (steady now : ℤ) (token : Bytes) (header : Header) (response : Response) (cache : JwksCache)
      → token_of (store send fuel cfg ssl steady now token header response cache).1 ≡ token
  unfolding store
  token_of-store steady now token header response cache = refl

  Step-IsSafe :
      {n : ℕ} {tokens : ℕ → Bytes} {s t : System W}
      → IsSafe tokens s
      → Step send fuel cfg ssl n s t
      → IsSafe tokens t
  Step-IsSafe {tokens} {s} (p, g) (looks_up i steady now {token} lt e) =
      let (q, _) = subst (IsCall (tokens i) (s.read_at i)) e (g i) in
      (
        p,
        moved tokens s i now _ g (
          token_of-look_up steady now token s.cache ∙ q,
          look_up-IsSound send fuel cfg ssl steady now token s.cache _ p
              (front-Rejects fuel cfg token) refl,
        ),
      )
  Step-IsSafe {tokens} {s} (p, g) (receives i {token} {header} lt e) =
      let (q, f) = subst (IsCall (tokens i) (s.read_at i)) e (g i) in
      (
        p,
        stays tokens s i _ g (
          token_of-receive token header s.world ∙ q,
          receive-IsSound send fuel cfg ssl (s.read_at i) token header s.world _ f refl,
        ),
      )
  Step-IsSafe {tokens} {s} (p, g) (stores i steady now {token} {header} {response} lt e) =
      let (q, (f, a)) = subst (IsCall (tokens i) (s.read_at i)) e (g i) in
      let (p', h) =
        store-IsSound send fuel cfg ssl steady now token header response s.cache _ _ p f a refl
          refl in
      (
        p',
        moved tokens s i now _ g (token_of-store steady now token header response s.cache ∙ q, h),
      )

  Reach-IsSafe :
      {n : ℕ} {tokens : ℕ → Bytes} {w : W} {k : ℕ} {s : System W}
      → Reach send fuel cfg ssl n tokens w k s
      → IsSafe tokens s
  Reach-IsSafe start = (inl refl, λ i. (refl, tt))
  Reach-IsSafe (later r step) = Step-IsSafe (Reach-IsSafe r) step

  -- However the moves of any number of calls over one cache are ordered: the cache holds no keys or the
  -- keys of a successful response to the request for the key set, each call is on its own token, and at its
  -- end it has an error, a refusal, or has accepted its token, which has a well-formed header, a signature
  -- that a key of such a response verifies, good claims at the last reading of the system clock by that
  -- call, and the context that its payload gives.
  pub Reach-IsSound :
      (n k : ℕ) (tokens : ℕ → Bytes) (w : W) (s : System W)
      → Reach send fuel cfg ssl n tokens w k s
      → (i : ℕ)
      → HoldsPublished send fuel cfg ssl s.cache
        × (token_of (s.task i) ≡ tokens i)
        × IsSound send fuel cfg ssl (s.read_at i) (s.task i)
  Reach-IsSound n k tokens w s r i = let (p, g) = Reach-IsSafe r in (p, (g i).0, (g i).1)
