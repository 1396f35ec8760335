-- ===== src/Validator/Tests/Interleaved.antt =====
-- Two calls of one token over one cache, and the theorems about their moves at concrete inputs.
use uidentity.Base.{ℕ, ◌+◌, Bytes, ok, ◌≡◌, refl, arith}
use uidentity.Base.Int.{pos, ◌+ℤ◌}
use uidentity.Jwt.Keys.{extract_jwks, read_jwk, read_jwks, starts_object}
use uidentity.Validator.Keys.{HttpClient}
use uidentity.Validator.Validate.{accept}
use uidentity.Oidc.Requests.{make_json_get}
use uidentity.Oidc.Uri.{parse_absolute_uri, split_authority, split_at_last, split_scheme}
use uidentity.Validator.Tasks.{
  fetching, received, done, look_up, receive, store, System, update, initial, looks_up, receives,
  stores, Reach, start, later, token_of,
}
use uidentity.Validator.Tasks.Invariant.{Reach-IsSound}
use uidentity.Validator.Tasks.Sound.{HoldsPublished, IsSound}
use uidentity.Validator.Tests.{
  run_code, good_header, accepted_context, config, library, token, key_set,
}

-- It counts the requests, and answers with the key set.
abbrev serving : HttpClient ℕ
serving request n = (n + 1, key_set)

abbrev tokens : ℕ → Bytes
tokens i = token

abbrev first : System ℕ
first = initial tokens 0

-- Both look at the cache before either has stored a key.
abbrev one_waits : System ℕ
one_waits = record first {
  task =
      update first.task 0 (look_up serving 40 config library (pos 5) (pos 1000) token first.cache);
  read_at = update first.read_at 0 (pos 1000);
}

abbrev both_wait : System ℕ
both_wait = record one_waits {
  task =
      update one_waits.task 1
        (look_up serving 40 config library (pos 6) (pos 1001) token one_waits.cache);
  read_at = update one_waits.read_at 1 (pos 1001);
}

-- The first call has its response and stores the keys.
abbrev one_answered : System ℕ
one_answered = record both_wait {
  world = (receive serving 40 config library token good_header both_wait.world).0;
  task =
      update both_wait.task 0
        (receive serving 40 config library token good_header both_wait.world).1;
}

abbrev one_stored : System ℕ
one_stored = record one_answered {
  cache =
      (store serving 40 config library (pos 7) (pos 1002) token good_header key_set
        one_answered.cache).0;
  task =
      update one_answered.task 0
        (store serving 40 config library (pos 7) (pos 1002) token good_header key_set
          one_answered.cache).1;
  read_at = update one_answered.read_at 0 (pos 1002);
}

unfoldable run_tasks : Unit {0}
unfolding run_code update look_up receive store extract_jwks read_jwk read_jwks starts_object
    make_json_get parse_absolute_uri split_authority split_at_last split_scheme
run_tasks = tt

one_fetches : both_wait.task 0 ≡ fetching token good_header
unfolding run_tasks
one_fetches = refl

one_has : one_answered.task 0 ≡ received token good_header key_set
unfolding run_tasks
one_has = refl

four_moves : Reach serving 40 config library 2 tokens 0 4 one_stored
unfolding update
four_moves =
    let two : Reach serving 40 config library 2 tokens 0 2 both_wait =
      later (later start (looks_up 0 (pos 5) (pos 1000) (omega arith) refl))
        (looks_up 1 (pos 6) (pos 1001) (omega arith) refl) in
    later (later two (receives 0 (omega arith) one_fetches))
      (stores 0 (pos 7) (pos 1002) (omega arith) one_has)

one_accepted : one_stored.task 0 ≡ done token (ok (accept accepted_context))
unfolding run_tasks ◌+ℤ◌
one_accepted = refl

Reach-IsSound_example :
    HoldsPublished serving 40 config library one_stored.cache
    × (token_of (one_stored.task 0) ≡ token)
    × IsSound serving 40 config library (one_stored.read_at 0) (one_stored.task 0)
Reach-IsSound_example = Reach-IsSound serving 40 config library 2 4 tokens 0 one_stored four_moves 0
