-- ===== src/Monitor/Session.antt =====
-- The signed tokens of a session: make_session_token and parse_session_token.
use panamacompra_collector_b.Prelude.{
  ℕ, ◌+◌, Option, none, some, List, [], ◌∷◌, ◌++◌, ltb, eqb, if◌then◌else◌, Text, codes, ◌==◌,
}

-- The fields of a session that the server reads.
pub record Session : Type 0 where
  pub uid : Text
  pub email : Text
  pub role : Text
  pub tabs : List Text
  pub exp : ℕ

-- The HMAC of a payload under the secret, in hexadecimal; the JSON of a session in URL-safe base64
-- without padding, and its decoding; and the time in seconds.
pub record Keys : Type 0 where
  pub sign_session : Text → Text
  pub encode : Session → Text
  pub decode : Text → Option Session
  pub now : ℕ

abbrev pub session_ttl_seconds : ℕ
session_ttl_seconds = 604800

-- `token.rpartition(sep)` of a token that has the separator.
unfoldable pub rpartition : ℕ → Text → Option (Text × Text)
rpartition sep [] = none
rpartition sep (c ∷ text) = elim (rpartition sep text) [
  | some (before, after) ↦ some (c ∷ before, after)
  | none ↦ if eqb c sep then some ([], text) else none
]

module _ (k : Keys) where
  unfoldable pub make_session_token : Text → Text → Text → List Text → Text
  make_session_token uid email role tabs =
      let payload = k.encode (record {
        uid = uid;
        email = email;
        role = role;
        tabs = tabs;
        exp = k.now + session_ttl_seconds;
      }) in
      payload ++ codes "." ++ k.sign_session payload

  abbrev pub unexpired : Option Session → Option Session
  unexpired none = none
  unexpired (some s) = if ltb s.exp k.now then none else some s

  abbrev pub check_signature : Option (Text × Text) → Option Session
  check_signature none = none
  check_signature (some (payload, signature)) =
      if signature == k.sign_session payload then unexpired (k.decode payload) else none

  unfoldable pub parse_session_token : Text → Option Session
  parse_session_token token = check_signature (rpartition b'.' token)
