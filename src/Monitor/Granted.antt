-- ===== src/Monitor/Granted.antt =====
-- What each access level takes, and what it grants.
use panamacompra_collector_b.Prelude.{
  ◌≤◌, ◌≡◌, ◌⊎◌, true, false, some, List, [], eqb, keep, Text, codes, ◌==◌, is_empty, strip, member,
}
use panamacompra_collector_b.Filter.{split_by}
use panamacompra_collector_b.Monitor.Session.{Session, Keys, rpartition}
use panamacompra_collector_b.Monitor.Access.{
  Request, Level, admin, staff, no_access, valid_monitor_tabs, is_local_request, session_cookie,
  session_of, supplied_token,
}

module _ (k : Keys) where
  -- A session whose token was signed under the secret of the server, and that has not expired.
  abbrev pub IsGenuine : Text → Session → Type 0
  IsGenuine value s =
      (payload : Text) × (rpartition b'.' value ≡ some (payload, k.sign_session payload))
      × (k.decode payload ≡ some s)
      × (k.now ≤ s.exp)

  -- The session cookie of a request has a genuine session.
  abbrev pub IsSignedIn : Request → Session → Type 0
  IsSignedIn r s =
      (value : Text) × (session_cookie (split_by (λ c. eqb c b';') r.cookie) ≡ some value)
      × IsGenuine value s

  abbrev IsValidTab : Text → Type 0
  IsValidTab tab = member tab valid_monitor_tabs ≡ true

  -- What a request must have, and what it gets, at each level.
  abbrev pub Granted : Text → Request → Level × List Text → Type 0
  Granted api_token r (admin, tabs) =
      (tabs ≡ valid_monitor_tabs)
      × ((is_local_request r ≡ true)
          ⊎ ((s : Session) × IsSignedIn r s × (s.role ≡ codes "admin"))
          ⊎ ((is_empty (strip api_token) ≡ false) × (supplied_token k r ≡ strip api_token)))
  Granted api_token r (staff, tabs) =
      (is_local_request r ≡ false)
      × (s : Session) × IsSignedIn r s
      × (s.role ≡ codes "staff")
      × (tabs ≡ keep (λ tab. member tab valid_monitor_tabs) s.tabs)
  Granted api_token r (no_access, tabs) =
      (is_local_request r ≡ false)
      × (tabs ≡ [])
      × ((is_empty (strip api_token) ≡ true)
          ⊎ (is_empty (supplied_token k r) ≡ true)
          ⊎ ((supplied_token k r == strip api_token) ≡ false))
      × ((s : Session)
          → session_of k r ≡ some s
          → ((s.role == codes "admin") ≡ false) × ((s.role == codes "staff") ≡ false))

  NotStaff : Request → Type 0
  NotStaff r =
      (s : Session)
      → session_of k r ≡ some s
      → ((s.role == codes "admin") ≡ false) × ((s.role == codes "staff") ≡ false)
