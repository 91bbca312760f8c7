-- ===== src/Waha/Send/Requests.antt =====
-- How many requests a call of `send_text` makes.
use panamacompra_collector_b.Prelude.{
  Bool, true, false, Option, none, some, ℕ, zero, suc, ◌+◌, ◌≤◌, ◌<◌, ◌≡◌, refl, inl, inr, [], ◌∷◌,
  arith, le→leb, Bool-cases, Option-cases, length, length-snoc, Text, strip,
}
use mathlib.Core.Path.{subst}
use panamacompra_collector_b.Waha.Send.{
  Post, Session, Endpoint, Client, Delivery, Result, skipped, sent, qr_required, not_ready, failed,
  crashed, unless_raised, Failure, on_failure, breaker_threshold, flag_unsent_message,
  require_session_ready, delivered, refused, give_up, attempt_from, retries_left, post_ready,
  send_to, send_text, clear_qr_warning, write_waha_warning, write_qr_warning, not_ready_warning,
}
use panamacompra_collector_b.Waha.{configured_chat_id, or_else}

-- The messages posted (not the request for the state of the session), for a number of attempts.
abbrev pub Requested : ℕ → Client → Client × Result → Type 0
Requested attempts before (after, sent) =
    (length before.posted < length after.posted)
    × (length after.posted ≤ length before.posted + attempts)
Requested attempts before (after, failed reason) =
    length after.posted ≡ length before.posted + attempts
Requested attempts before (after, crashed reason) =
    (length before.posted ≤ length after.posted)
    × (length after.posted ≤ length before.posted + attempts)
Requested attempts before (after, other) = after.posted ≡ before.posted

-- The attempts can end so.
abbrev is_end : Result → Bool
is_end skipped = false
is_end (qr_required reason) = false
is_end (not_ready reason) = false
is_end other = true

Requested-step :
    (n : ℕ) (b c : Client) (r : Client × Result)
    → length b.posted ≡ suc (length c.posted)
    → is_end r.1 ≡ true
    → Requested n b r
    → Requested (suc n) c r
Requested-step n b c (after, sent) s k h = (grind arith, grind arith)
Requested-step n b c (after, failed x) s k h = grind arith
Requested-step n b c (after, crashed x) s k h = (grind arith, grind arith)
Requested-step n b c (after, skipped) s k h = absurd (cc k)
Requested-step n b c (after, qr_required y) s k h = absurd (cc k)
Requested-step n b c (after, not_ready y) s k h = absurd (cc k)

module _ (e : Endpoint) where
  attempt_from-is_end :
      (n : ℕ) (purpose : Text) (p : Post) (c : Client)
      → is_end (attempt_from e n purpose p c).1 ≡ true
  unfolding attempt_from
  attempt_from-is_end zero purpose p c = elim (Option-cases (e.answer c.posted p)) [
    | inl ok ↦ rw (ok, attempt_from) refl
    | inr (failure, bad) ↦
        rw (bad, attempt_from)
          (elim (Bool-cases failure.caught) [
            | inl caught ↦ rw caught refl
            | inr other ↦ rw other refl
          ])
  ]
  attempt_from-is_end (suc n) purpose p c = elim (Option-cases (e.answer c.posted p)) [
    | inl ok ↦ rw (ok, attempt_from) refl
    | inr (failure, bad) ↦
        rw (bad, attempt_from)
          (elim (Bool-cases failure.caught) [
            | inl caught ↦ rw caught (attempt_from-is_end n purpose p (refused e p c))
            | inr other ↦ rw other refl
          ])
  ]

  unless_raised-Requested :
      (n : ℕ) (error : Option Text) (c : Client) (r : Client × Result)
      → Requested (suc n) c r
      → Requested (suc n) c (unless_raised error c r)
  unless_raised-Requested n none c r h = h
  unless_raised-Requested n (some error) c r h = (ground arith, ground arith)

  on_failure-Requested :
      (n : ℕ) (p : Post) (failure : Failure) (c : Client) (r : Client × Result)
      → Requested (suc n) c r
      → Requested (suc n) c (on_failure e p failure c r)
  unfolding refused
  on_failure-Requested n p failure c r h = elim (Bool-cases failure.caught) [
    | inl caught ↦ rw caught h
    | inr other ↦ rw (other, length-snoc c.posted p) (ground arith, ground arith)
  ]

  attempt_from-Requested :
      (n : ℕ) (purpose : Text) (p : Post) (c : Client)
      → Requested (suc n) c (attempt_from e n purpose p c)
  unfolding attempt_from delivered give_up refused flag_unsent_message
  attempt_from-Requested zero purpose p c = elim (Option-cases (e.answer c.posted p)) [
    | inl ok ↦ rw (ok, attempt_from, length-snoc c.posted p) (ground arith, ground arith)
    | inr (failure, bad) ↦
        rw (bad, attempt_from)
          (on_failure-Requested 0 p failure c _ (rw (length-snoc c.posted p) (ground arith)))
  ]
  attempt_from-Requested (suc n) purpose p c = elim (Option-cases (e.answer c.posted p)) [
    | inl ok ↦ rw (ok, attempt_from, length-snoc c.posted p) (ground arith, ground arith)
    | inr (failure, bad) ↦
        rw (bad, attempt_from)
          (on_failure-Requested (suc n) p failure c _ (
            Requested-step (suc n) (refused e p c) c (attempt_from e n purpose p (refused e p c))
              (length-snoc c.posted p) (attempt_from-is_end n purpose p (refused e p c))
              (attempt_from-Requested n purpose p (refused e p c))))
  ]

  require_session_ready-Requested :
      (d : Delivery) (s : Session) (session purpose chat_id text : Text) (p : Post) (c : Client)
      → Requested
          (suc (retries_left e d c))
          c
          (post_ready e d purpose p (require_session_ready s session purpose chat_id text c))
  unfolding require_session_ready flag_unsent_message clear_qr_warning write_qr_warning
      not_ready_warning write_waha_warning retries_left post_ready
  require_session_ready-Requested d s session purpose chat_id text p c =
      elim (Bool-cases s.needs_qr) [
        | inl qr ↦ rw (qr, require_session_ready) refl
        | inr no_qr ↦ elim (Bool-cases s.connected) [
          | inl up ↦
              rw (no_qr, up, require_session_ready)
                (attempt_from-Requested (retries_left e d c) purpose p (clear_qr_warning c))
          | inr down ↦ rw (no_qr, down, require_session_ready) refl
        ]
      ]

  pub send_text-Requested :
      (d : Delivery) (text purpose chat_id_override : Text) (c : Client)
      → Requested (suc (retries_left e d c)) c (send_text e d text purpose chat_id_override c)
  unfolding send_text send_to
  send_text-Requested d text purpose chat_id_override c =
      unless_raised-Requested (retries_left e d c) d.timeout_error c _
        (to (or_else (strip chat_id_override) (configured_chat_id d.chats purpose)))
    where
      to :
          (chat_id : Text)
          → Requested (suc (retries_left e d c)) c (send_to e d text purpose chat_id c)
      to [] = refl
      to (i ∷ chat_id) = unless_raised-Requested (retries_left e d c) e.session_error c _ (
          require_session_ready-Requested d (e.session_status d.session) d.session purpose
            (i ∷ chat_id) text (record { session = d.session; chat_id = i ∷ chat_id; text = text })
            c)

  Requested-once :
      (c : Client) (r : Client × Result)
      → Requested 1 c r
      → length (r.0).posted ≤ suc (length c.posted)
  Requested-once c (after, sent) h = grind arith
  Requested-once c (after, failed x) h = grind arith
  Requested-once c (after, crashed x) h = grind arith
  Requested-once c (after, skipped) h = rw h (ground arith)
  Requested-once c (after, qr_required x) h = rw h (ground arith)
  Requested-once c (after, not_ready x) h = rw h (ground arith)

  -- Once as many messages in a row have failed as the threshold says, a call makes one request at
  -- most, whatever the number of retries.
  pub send_text-breaker :
      (d : Delivery) (text purpose chat_id_override : Text) (c : Client)
      → breaker_threshold d.breaker ≤ c.send_failures
      → length ((send_text e d text purpose chat_id_override c).0).posted ≤ suc (length c.posted)
  unfolding retries_left
  send_text-breaker d text purpose chat_id_override c tripped =
      Requested-once c (send_text e d text purpose chat_id_override c) (
        subst (λ n. Requested (suc n) c (send_text e d text purpose chat_id_override c)) closed
          (send_text-Requested d text purpose chat_id_override c))
    where
      closed : retries_left e d c ≡ 0
      closed = rw (le→leb _ _ tripped) refl
