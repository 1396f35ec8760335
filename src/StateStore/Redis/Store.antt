-- ===== src/StateStore/Redis/Store.antt =====
-- The operations of RedisStateStore, and what they take from the client.
use uidentity.Base.{
  ℕ, zero, suc, ◌+◌, ◌-◌, ◌%◌, ◌^◌, List, [], ◌∷◌, ◌++◌, Option, none, some, Bytes, codes, eq_bytes,
  ltb, if◌then◌else◌, to_string, Result, ok, err, Error, ◌>>=◌,
}
use uidentity.Base.Int.{ℤ, pos, negsuc}
use uidentity.StateStore.Entry.{StateEntry}
use uidentity.StateStore.Random.{random_state_32}
use uidentity.StateStore.Redis.Codec.{encode_state_entry, decode_state_entry}

-- What `redis_.command` comes back with: an error with its message, or a reply.
pub data Response : Type 0 where
  failed : Bytes → Response
  null : Response
  simple_string : Bytes → Response
  bulk_string : Bytes → Response
  other : Response

-- A client, over the state of the server.
abbrev pub Client : Type 0 → Type 0
Client S = List Bytes → S → S × Response

-- `static_cast<int>` of a positive 64-bit number.
unfoldable pub cast_int : ℕ → ℤ
cast_int n = let low = n % 2 ^ 32 in if ltb low (2 ^ 31) then pos low else negsuc (2 ^ 32 - low - 1)

at_least_one : ℤ → ℕ
at_least_one (pos zero) = 1
at_least_one (pos (suc n)) = suc n
at_least_one (negsuc n) = 1

-- `std::to_string(static_cast<int>(std::max<std::int64_t>(1, ttl.count())))`
unfoldable pub ttl_text : ℤ → Bytes
unfolding cast_int at_least_one
ttl_text ttl = to_string (cast_int (at_least_one ttl))

unfoldable pub redis_failure : Bytes → Bytes → Error
redis_failure operation message = Error.runtime_error (operation ++ (codes " failed: " ++ message))

-- The constructor refuses an empty prefix.
unfoldable pub construct : Bytes → Result Bytes
construct [] = err (Error.invalid_argument (codes "key_prefix must not be empty"))
construct (c ∷ key_prefix) = ok (c ∷ key_prefix)

unfoldable pub make_key : Bytes → Bytes → Bytes
make_key key_prefix state = key_prefix ++ state

abbrev pub set_command : Bytes → Bytes → Bytes → List Bytes
set_command key value ttl = codes "SET" ∷ key ∷ value ∷ codes "EX" ∷ ttl ∷ codes "NX" ∷ []

abbrev pub getdel_command : Bytes → List Bytes
getdel_command key = codes "GETDEL" ∷ key ∷ []

-- A value that does not decode is a verifier from before realms were stored.
unfoldable pub entry_of_reply : Bytes → StateEntry
entry_of_reply raw = elim (decode_state_entry raw) [
  | some entry ↦ entry
  | none ↦ record { code_verifier = raw; realm = [] }
]

unfoldable pub read_reply : Response → Result (Option StateEntry)
read_reply (failed message) = err (redis_failure (codes "RedisStateStore::consume_state") message)
read_reply null = ok none
read_reply (simple_string raw) = ok (some (entry_of_reply raw))
read_reply (bulk_string raw) = ok (some (entry_of_reply raw))
read_reply other =
    err
      (Error.runtime_error (codes "RedisStateStore::consume_state failed: unexpected Redis reply"))

module _ {S : Type 0} (command : Client S) (key_prefix : Bytes) where
  -- The loop over the attempts: the attempts left, the number of the next draw.
  unfoldable pub allocate : ℕ → ℕ → (ℕ → Option Bytes) → Bytes → Bytes → S → S × Result Bytes
  allocate zero i draw value ttl s = (
    s,
    err (
        Error.runtime_error
          (codes "RedisStateStore::create_state failed: unable to allocate unique state")),
  )
  allocate (suc n) i draw value ttl s = elim (random_state_32 (draw i)) [
    | err e ↦ (s, err e)
    | ok state ↦
        let (after, response) = command (set_command (make_key key_prefix state) value ttl) s in
        let retried = allocate n (i + 1) draw value ttl after in
        let unexpected : S × Result Bytes = (
          after,
          err (
              Error.runtime_error
                (codes "RedisStateStore::create_state failed: unexpected Redis reply")),
        ) in
        elim response [
          | failed message ↦
              (after, err (redis_failure (codes "RedisStateStore::create_state") message))
          | null ↦ retried
          | simple_string text ↦
              if eq_bytes text (codes "OK") then (after, ok state) else unexpected
          | bulk_string text ↦ unexpected
          | other ↦ unexpected
        ]
  ]

  unfoldable pub create_state_entry : (ℕ → Option Bytes) → StateEntry → ℤ → S → S × Result Bytes
  create_state_entry draw entry ttl s =
      allocate 8 0 draw (encode_state_entry entry) (ttl_text ttl) s

  unfoldable pub create_state : (ℕ → Option Bytes) → Bytes → ℤ → S → S × Result Bytes
  create_state draw code_verifier ttl s =
      create_state_entry draw (record { code_verifier = code_verifier; realm = [] }) ttl s

  unfoldable pub consume_state_entry : Bytes → S → S × Result (Option StateEntry)
  consume_state_entry state s =
      let (after, response) = command (getdel_command (make_key key_prefix state)) s in
      (after, read_reply response)

  unfoldable pub consume_state : Bytes → S → S × Result (Option Bytes)
  consume_state state s =
      let (after, entry) = consume_state_entry state s in
      (after, entry >>= λ e. ok (elim e [ none ↦ none | some x ↦ some x.code_verifier ]))
