-- ===== src/Keyed/Runs.antt =====
-- Runs of requests, with and without keys, as runs of the map of keys.
use hub_meta_conversion_serv.Base.{
  ℕ, suc, ◌≤◌, true, false, ◌≡◌, ◌≢◌, refl, Bool, Option, some, List, [], ◌∷◌, String, str_eq,
  eq_iff, arith, ◌&&◌, if◌then◌else◌, All, Bool-cases, inl, inr,
}
use hub_meta_conversion_serv.Exec.{Result, ok, err}
use hub_meta_conversion_serv.Models.{Uuid}
use hub_meta_conversion_serv.Schemas.{ConversionTagCreate, ConversionTagOut}
use hub_meta_conversion_serv.Errors.{Exc}
use hub_meta_conversion_serv.Security.{TokenCipher}
use hub_meta_conversion_serv.Env.{Env}
use hub_meta_conversion_serv.Session.{World, with_session}
use hub_meta_conversion_serv.Api.{TagReply, request_hash, create_conversion_tag}
use hub_meta_conversion_serv.Keyed.{
  Entry, Keys, keys_of, KeyStep, first, fails, replays, unreadable, conflicts,
}
use hub_meta_conversion_serv.Keyed.Step.{handler-KeyStep}

-- A request of a client that gives a key.
pub record KeyedRequest : Type 0 where
  pub advertiser_id : Uuid
  pub payload : ConversionTagCreate
  pub key : String

module _ (env : Env) (c : TokenCipher) where
  unfoldable pub answer :
      KeyedRequest → World env.Remote env.Json → Result Exc TagReply × World env.Remote env.Json
  answer q = with_session env (create_conversion_tag env c q.advertiser_id q.payload (some q.key))

  -- Each request in its own session, with all replies.
  unfoldable pub answer_all :
      List KeyedRequest
      → World env.Remote env.Json
      → List (KeyedRequest × Result Exc TagReply) × World env.Remote env.Json
  unfolding answer
  answer_all [] w = ([], w)
  answer_all (q ∷ qs) w =
      let (reply, w1) = answer q w in
      let (replies, w2) = answer_all qs w1 in ((q, reply) ∷ replies, w2)

  -- A run of the map of keys.
  pub data KeyRun
      : Keys env.Json → List (KeyedRequest × Result Exc TagReply) → Keys env.Json → Type 0 where
    done : (keys : Keys env.Json) → KeyRun keys [] keys
    step :
        (q : KeyedRequest) (reply : Result Exc TagReply) (keys between after : Keys env.Json)
        (rest : List (KeyedRequest × Result Exc TagReply))
        → KeyStep env.validate_out q.key
            (request_hash env q.advertiser_id q.payload)
            keys
            reply
            between
        → KeyRun between rest after
        → KeyRun keys ((q, reply) ∷ rest) after

  abbrev pub KeysGiven : List KeyedRequest → Type 0
  KeysGiven = All (λ q. q.key ≢ "")

  -- No commit of another request is due, and requests to create conversion tags are served one
  -- after the other, each with a non-empty Idempotency-Key. Then their replies, and the keys on
  -- record before and after, are a run of a map from keys to replies: a key that is not in the map
  -- is entered with a success that is no replay, and a failure enters nothing; a key that is in
  -- the map is answered from it if the hash is that of the request, and refused if it is not, and
  -- the map stays. If the recorded body no longer reads as a tag, the request fails, and the map
  -- stays as well.
  pub sessions_run_keys :
      (requests : List KeyedRequest) (w : World env.Remote env.Json)
      → KeysGiven requests
      → w.arrivals ≡ []
      → let (replies, w') = answer_all requests w in
        KeyRun (keys_of w.committed) replies (keys_of w'.committed)
  unfolding answer answer_all
  sessions_run_keys [] w given alone = done (keys_of w.committed)
  sessions_run_keys (q ∷ qs) w given alone =
      let (taken, quiet) = handler-KeyStep env c q.advertiser_id q.payload w alone q.key given.0 in
      step q _ _ _ _ _ taken (sessions_run_keys qs (answer q w).1 given.1 quiet)

-- A reply of a new creation, and not of a replay.
abbrev pub is_first : Result Exc TagReply → Bool
is_first (ok reply) = if reply.replay then false else true
is_first (err e) = false

-- How often a key was answered with a new creation.
abbrev pub firsts : String → List (KeyedRequest × Result Exc TagReply) → ℕ
firsts key [] = 0
firsts key ((q, reply) ∷ rest) =
    let n = firsts key rest in if str_eq q.key key && is_first reply then suc n else n

module _ {J : Type 0} (read : J → Option ConversionTagOut) (k key hash : String)
    (keys : Keys J) where
  -- A key that has its entry keeps it, and is answered with no second creation.
  step-kept :
      (entry : Entry J) (reply : Result Exc TagReply) (after : Keys J)
      → keys key ≡ some entry
      → KeyStep read k hash keys reply after
      → (after key ≡ some entry) × ((str_eq k key && is_first reply) ≡ false)
  step-kept entry reply after known (first made r free recalls new) =
      elim (Bool-cases (str_eq k key)) [
        | inl same ↦ absurd (ground (arith, (eq_iff k key).0 same, known, free))
        | inr differs ↦ rw differs (known, refl)
      ]
  step-kept entry reply after known (fails e free) = (known, ground arith)
  step-kept entry reply after known (replays made r at_key recalls old) =
      (known, rw old (ground arith))
  step-kept entry reply after known (unreadable made at_key same broken) = (known, ground arith)
  step-kept entry reply after known (conflicts made at_key differs) = (known, ground arith)

  -- A new creation enters the key.
  step-enters :
      (reply : Result Exc TagReply) (after : Keys J)
      → KeyStep read k hash keys reply after
      → (str_eq k key && is_first reply) ≡ true
      → (entry : Entry J) × (after key ≡ some entry)
  step-enters reply after (first made r free recalls new) e = (made, ground arith)
  step-enters reply after (fails x free) e = absurd (ground arith)
  step-enters reply after (replays made r at_key recalls old) e = absurd (ground (arith, old))
  step-enters reply after (unreadable made at_key same broken) e = absurd (ground arith)
  step-enters reply after (conflicts made at_key differs) e = absurd (ground arith)

module _ (env : Env) (c : TokenCipher) (key : String) where
  no_second :
      (keys after : Keys env.Json) (replies : List (KeyedRequest × Result Exc TagReply))
      (entry : Entry env.Json)
      → keys key ≡ some entry
      → KeyRun env c keys replies after
      → firsts key replies ≡ 0
  no_second keys after replies entry known (done same) = refl
  no_second keys after replies entry known (step q reply before between end rest s run) =
      let (kept, quiet) = step-kept env.validate_out q.key key _ keys entry reply between known s in
      rw quiet (no_second between after rest entry kept run)

  once :
      (keys after : Keys env.Json) (replies : List (KeyedRequest × Result Exc TagReply))
      → KeyRun env c keys replies after
      → firsts key replies ≤ 1
  once keys after replies (done same) = omega arith
  once keys after replies (step q reply before between end rest s run) =
      elim (Bool-cases (str_eq q.key key && is_first reply)) [
        | inl enters ↦
            let (entry, known) =
              step-enters env.validate_out q.key key _ keys reply between s enters in
            let none_left = no_second between after rest entry known run in
            rw (enters, none_left) (omega arith)
        | inr quiet ↦ rw quiet (once between after rest run)
      ]

  -- No commit of another request is due, and requests to create conversion tags are served one
  -- after the other, each with a non-empty Idempotency-Key. Then at most one of the requests with
  -- a given key is answered with a success that is no replay.
  pub key_creates_once :
      (requests : List KeyedRequest) (w : World env.Remote env.Json)
      → KeysGiven env c requests
      → w.arrivals ≡ []
      → firsts key (answer_all env c requests w).0 ≤ 1
  key_creates_once requests w given alone =
      once _ _ _ (sessions_run_keys env c requests w given alone)
