-- ===== src/Notify/Shared.antt =====
-- The shared group is spared: a client profile never brings a record into it.
mod Tests
use panamacompra_collector_b.Prelude.{
  ℕ, zero, suc, ◌+◌, ◌-◌, ◌≡◌, refl, ◌≢◌, inl, inr, Bool, true, false, not, ◌&&◌, Option, none,
  some, List, [], ◌∷◌, ◌++◌, if◌then◌else◌, Bool-cases, Option-cases, All, Text, codes, is_empty,
  strip, starts_with, member,
}
use panamacompra_collector_b.Archive.{Opportunity, find_existing_opportunity}
use panamacompra_collector_b.Waha.{configured_chat_id, or_else}
use panamacompra_collector_b.Waha.Send.{
  Post, Session, Endpoint, Client, Delivery, flag_unsent_message, require_session_ready, delivered,
  refused, give_up, attempt_from, retries_left, post_ready, send_to, clear_qr_warning,
  write_waha_warning, write_qr_warning, not_ready_warning,
}
use panamacompra_collector_b.Waha.Send
use panamacompra_collector_b.Notify.{Desk, Node, Profile, match_line_for, matching_client_profiles}
use panamacompra_collector_b.Notify.Deliver.{
  send_text, send_matching, settle_send, send_all, send_profiles, post_to, and_then,
  log_app_notification, Ended, ended, broken,
}

-- Every message posted went to a chat with a property.
abbrev pub Only : (Text → Type 0) → Client → Type 0
Only Q c = All (λ p. Q p.chat_id) c.posted

module _ (Q : Text → Type 0) where
  All-snoc :
      (ps : List Post) (p : Post)
      → All (λ x. Q x.chat_id) ps
      → Q p.chat_id
      → All (λ x. Q x.chat_id) (ps ++ p ∷ [])
  All-snoc [] p h q = (q, tt)
  All-snoc (x ∷ ps) p h q = (h.0, All-snoc ps p h.1 q)

  on_failure-Only :
      (e : Endpoint) (p : Post) (failure : Send.Failure) (c : Client) (r : Client × Send.Result)
      → Q p.chat_id
      → Only Q c
      → Only Q r.0
      → Only Q (Send.on_failure e p failure c r).0
  unfolding refused
  on_failure-Only e p failure c r q h k = elim (Bool-cases failure.caught) [
    | inl caught ↦ rw caught k
    | inr other ↦ rw other (All-snoc c.posted p h q)
  ]

  unless_raised-Only :
      (error : Option Text) (c : Client) (r : Client × Send.Result)
      → Only Q c
      → Only Q r.0
      → Only Q (Send.unless_raised error c r).0
  unless_raised-Only none c r h k = k
  unless_raised-Only (some error) c r h k = h

  attempt_from-Only :
      (e : Endpoint) (n : ℕ) (purpose : Text) (p : Post) (c : Client)
      → Q p.chat_id
      → Only Q c
      → Only Q (attempt_from e n purpose p c).0
  unfolding attempt_from delivered give_up refused flag_unsent_message
  attempt_from-Only e zero purpose p c q h = elim (Option-cases (e.answer c.posted p)) [
    | inl ok ↦ rw (ok, attempt_from) (All-snoc c.posted p h q)
    | inr (reason, bad) ↦
        rw (bad, attempt_from) (on_failure-Only e p reason c _ q h (All-snoc c.posted p h q))
  ]
  attempt_from-Only e (suc n) purpose p c q h = elim (Option-cases (e.answer c.posted p)) [
    | inl ok ↦ rw (ok, attempt_from) (All-snoc c.posted p h q)
    | inr (reason, bad) ↦
        rw (bad, attempt_from)
          (on_failure-Only e p reason c _ q h
            (attempt_from-Only e n purpose p (refused e p c) q (All-snoc c.posted p h q)))
  ]

  post_ready-Only :
      (e : Endpoint) (d : Delivery) (s : Session) (session purpose chat_id text : Text) (p : Post)
      (c : Client)
      → Q p.chat_id
      → Only Q c
      → Only Q (post_ready e d purpose p (require_session_ready s session purpose chat_id text c)).0
  unfolding require_session_ready flag_unsent_message clear_qr_warning write_qr_warning
      not_ready_warning write_waha_warning post_ready
  post_ready-Only e d s session purpose chat_id text p c q h = elim (Bool-cases s.needs_qr) [
    | inl qr ↦ rw (qr, require_session_ready) h
    | inr no_qr ↦ elim (Bool-cases s.connected) [
      | inl up ↦
          rw (no_qr, up, require_session_ready)
            (attempt_from-Only e (retries_left e d (clear_qr_warning c)) purpose p
              (clear_qr_warning c) q h)
      | inr down ↦ rw (no_qr, down, require_session_ready) h
    ]
  ]

  send_to-Only :
      (e : Endpoint) (d : Delivery) (text purpose chat_id : Text) (c : Client)
      → Q chat_id
      → Only Q c
      → Only Q (send_to e d text purpose chat_id c).0
  unfolding send_to
  send_to-Only e d text purpose [] c q h = h
  send_to-Only e d text purpose (i ∷ chat_id) c q h = unless_raised-Only e.session_error c _ h (
      post_ready-Only e d (e.session_status d.session) d.session purpose (i ∷ chat_id) text
        (record { session = d.session; chat_id = i ∷ chat_id; text = text }) c q h)

  -- As `load_client_profiles` returns it, and with a chat that has the property.
  abbrev pub IsFor : Profile → Type 0
  IsFor p = (strip p.chat_id ≡ p.chat_id) × (is_empty p.chat_id ≡ false) × Q p.chat_id

  or_else_left : (a b : Text) → is_empty a ≡ false → or_else a b ≡ a
  or_else_left [] b h = absurd (cc h)
  or_else_left (i ∷ a) b h = refl

  post_to-Only :
      (d : Desk) (text purpose : Text) (p : Profile) (c : Client)
      → IsFor p
      → Only Q c
      → Only Q (post_to d text purpose (strip p.chat_id) c).0
  unfolding post_to Send.send_text
  post_to-Only d text purpose p c for h =
      rw (for.0, for.0, or_else_left p.chat_id (configured_chat_id d.delivery.chats purpose) for.1)
        (unless_raised-Only d.delivery.timeout_error c _ h
          (send_to-Only d.endpoint d.delivery text purpose p.chat_id c for.2 h))

  and_then-Only :
      (d : Desk) (text purpose : Text) (r : Client × Option Text) (next : Client → Client × Ended)
      → Only Q (r.0)
      → ((c : Client) → Only Q c → Only Q (next c).0)
      → Only Q (and_then d text purpose r next).0
  and_then-Only d text purpose (c, none) next h k = k c h
  and_then-Only d text purpose (c, some error) next h k = h

  send_profiles-Only :
      (d : Desk) (text purpose : Text) (ps : List Profile) (ids : List Text) (b : Bool) (c : Client)
      → All IsFor ps
      → Only Q c
      → Only Q (send_profiles d text purpose ps ids b c).0
  unfolding send_profiles log_app_notification
  send_profiles-Only d text purpose [] ids b c for h = h
  send_profiles-Only d text purpose (p ∷ ps) ids b c for h =
      elim (Bool-cases (member (strip p.chat_id) ids)) [
        | inl seen ↦ rw (seen, send_profiles) (send_profiles-Only d text purpose ps ids b c for.1 h)
        | inr unseen ↦ elim (Bool-cases (starts_with (strip p.chat_id) (codes "app:"))) [
          | inl app ↦
              rw (unseen, app, send_profiles)
                (send_profiles-Only d text purpose ps (strip p.chat_id ∷ ids) true _ for.1 h)
          | inr chat ↦
              rw (unseen, chat, send_profiles)
                (and_then-Only d text purpose (post_to d text purpose (strip p.chat_id) c)
                  (send_profiles d text purpose ps (strip p.chat_id ∷ ids) true)
                  (post_to-Only d text purpose p c for.0 h)
                  (λ c' h'.
                    send_profiles-Only d text purpose ps (strip p.chat_id ∷ ids) true c' for.1 h'))
        ]
      ]

  settle_send-Only :
      (d : Desk) (text purpose : Text) (k : Option Text) (s : Node) (r : Client × Ended)
      → Only Q (r.0)
      → Only Q ((settle_send d text purpose k s r).0).client
  unfolding settle_send
  settle_send-Only d text purpose k s (c, ended false) h = h
  settle_send-Only d text purpose k s (c, ended true) h = h
  settle_send-Only d text purpose k s (c, broken error) h = h

  if_either :
      (b : Bool) (r t : Node × Bool)
      → Only Q (r.0).client
      → Only Q (t.0).client
      → Only Q ((if b then r else t).0).client
  if_either true r t h k = h
  if_either false r t h k = k

  send_matching-Only :
      (d : Desk) (text purpose : Text) (k : Option Text) (b : Bool) (chat : Text)
      (ps : List Profile) (s : Node)
      → b ≡ false
      → All IsFor ps
      → Only Q s.client
      → Only Q ((send_matching d text purpose k b chat ps s).0).client
  unfolding send_matching send_all
  send_matching-Only d text purpose k b chat ps s e for h = rw e (
      if_either _ (s, false) _ h
        (settle_send-Only d text purpose k s (send_profiles d text purpose ps [] false s.client)
          (send_profiles-Only d text purpose ps [] false s.client for h)))

and-false : (b : Bool) → (b && false) ≡ false
and-false true = refl
and-false false = refl

-- The destination of a purpose that every record may go to.
abbrev pub IsOther : Desk → Text → Text → Type 0
IsOther d purpose chat = chat ≢ strip (configured_chat_id d.delivery.chats purpose)

-- A record that the filter of the shared destination rejects is not posted there, whatever client
-- profiles match it: if the matching profiles have other chats, and no earlier message went to the
-- shared one, then none has gone there after the record was sent to the profiles.
pub send_text-Only :
    (d : Desk) (text purpose event numero : Text) (s : Node) (row : Opportunity)
    → find_existing_opportunity s.db numero ≡ some row
    → match_line_for d row purpose ≡ none
    → All (IsFor (IsOther d purpose)) (matching_client_profiles d purpose row)
    → Only (IsOther d purpose) s.client
    → Only (IsOther d purpose) ((send_text d text purpose event (some numero) s).0).client
unfolding send_text
send_text-Only d text purpose event numero s row e rejects for h =
    if_either (IsOther d purpose)
      (d.record_events_respect_filter && not (d.enabled_for_event event)) _ _ h
      (rw (e, rejects)
        (send_matching-Only (IsOther d purpose) d text purpose (some numero) _ _
          (matching_client_profiles d purpose row) (record s { last_send_error = [] }) (and-false _)
          for h))
