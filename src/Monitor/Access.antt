-- ===== src/Monitor/Access.antt =====
-- The access level of a request.
use panamacompra_collector_b.Prelude.{
  Bool, true, false, not, ◌&&◌, Option, none, some, List, [], ◌∷◌, eqb, if◌then◌else◌, keep, Text,
  codes, ◌==◌, is_empty, strip, member,
}
use panamacompra_collector_b.Filter.{split_by}
use panamacompra_collector_b.Splits.{split_once}
use panamacompra_collector_b.Monitor.Session.{Session, Keys, parse_session_token}

-- What a request carries: the address it comes from, its cookies, and the admin token of its header
-- and of its query.
pub record Request : Type 0 where
  pub client_address : Text
  pub cookie : Text
  pub admin_token_header : Text
  pub admin_token_query : Text

pub data Level : Type 0 where
  admin : Level
  staff : Level
  no_access : Level

unfoldable pub valid_monitor_tabs : List Text
valid_monitor_tabs =
    codes "overview"
    ∷ codes "calendar"
    ∷ codes "decision"
    ∷ codes "records"
    ∷ codes "operations"
    ∷ codes "whatsapp"
    ∷ codes "scheduler"
    ∷ codes "integrations"
    ∷ codes "settings"
    ∷ codes "system"
    ∷ []

unfoldable pub is_local_request : Request → Bool
is_local_request r =
    member r.client_address (codes "127.0.0.1" ∷ codes "::1" ∷ codes "::ffff:127.0.0.1" ∷ [])

-- `part.strip().partition("=")`, where the name is the one of the session and the value not empty.
abbrev named : Option (Text × Text) → Option Text
named none = none
named (some (name, [])) = none
named (some (name, c ∷ value)) = if name == codes "pc_admin_session" then some (c ∷ value) else none

unfoldable pub session_cookie : List Text → Option Text
session_cookie [] = none
session_cookie (part ∷ parts) = elim (named (split_once b'=' (strip part))) [
  | some value ↦ some value
  | none ↦ session_cookie parts
]

abbrev or_text : Text → Text → Text
or_text [] other = other
or_text (c ∷ text) other = c ∷ text

module _ (k : Keys) where
  abbrev pub session_from : Option Text → Option Session
  session_from none = none
  session_from (some value) = parse_session_token k value

  unfoldable pub session_of : Request → Option Session
  session_of r = session_from (session_cookie (split_by (λ c. eqb c b';') r.cookie))

  -- The shared token, for the one that is expected and the one that is supplied.
  abbrev pub token_level : Text → Text → Level × List Text
  token_level expected supplied =
      if not (is_empty expected) && not (is_empty supplied) && supplied == expected
      then (admin, valid_monitor_tabs)
      else (no_access, [])

  abbrev pub session_level : Bool → Bool → List Text → Level × List Text → Level × List Text
  session_level true is_staff tabs other = (admin, valid_monitor_tabs)
  session_level false true tabs other = (staff, keep (λ tab. member tab valid_monitor_tabs) tabs)
  session_level false false tabs other = other

  abbrev pub level_of : Option Session → Level × List Text → Level × List Text
  level_of none other = other
  level_of (some s) other =
      session_level (s.role == codes "admin") (s.role == codes "staff") s.tabs other

  abbrev pub supplied_token : Request → Text
  supplied_token r = strip (or_text r.admin_token_header r.admin_token_query)

  -- `_access_level`, for the value of PC_ADMIN_API_TOKEN in the settings.
  unfoldable pub access_level : Text → Request → Level × List Text
  access_level api_token r =
      if is_local_request r
      then (admin, valid_monitor_tabs)
      else level_of (session_of r) (token_level (strip api_token) (supplied_token r))
