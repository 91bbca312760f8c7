-- ===== src/Waha/Send/Outcome.antt =====
-- What a call of `send_text` leaves behind: the audit of unsent messages, the log of the app and
-- the number of requests.
use panamacompra_collector_b.Prelude.{
  Option, none, some, ap, ◌++◌, if◌then◌else◌, ℕ, zero, suc, ◌≡◌, refl, ◌∙◌, ◌≢◌, inl, inr, [], ◌∷◌,
  Bool-cases, Option-cases, length, length-snoc, Text, strip,
}
use panamacompra_collector_b.Waha.Send.{
  Post, Session, Endpoint, Client, Delivery, Result, skipped, sent, qr_required, not_ready, failed,
  crashed, unless_raised, Failure, AppNotification, on_failure, flag_unsent_message,
  require_session_ready, delivered, refused, give_up, attempt_from, retries_left, post_ready,
  send_to, send_text, clear_qr_warning, write_waha_warning, write_qr_warning, not_ready_warning,
}
use panamacompra_collector_b.Waha.{configured_chat_id, or_else}

-- One entry for the message goes into the log of the app, if the log takes it.
abbrev pub IsLogged : Endpoint → Text → Text → Client → Client → Type 0
IsLogged e purpose text before after =
    (entry : AppNotification) × (entry.purpose ≡ purpose)
    × (entry.text ≡ text)
    × (after.app_log ≡ (if e.logs entry then before.app_log ++ entry ∷ [] else before.app_log))

-- A message that was skipped leaves both logs as they were, and so does a call that a crash ends; one
-- that was sent goes into the log of the app; one that was given up or held back is in the audit.
abbrev pub Accounted : Endpoint → Text → Text → Client → Client × Result → Type 0
Accounted e purpose text before (after, skipped) =
    (after.unsent ≡ before.unsent) × (after.app_log ≡ before.app_log)
Accounted e purpose text before (after, sent) =
    (after.unsent ≡ before.unsent)
    × IsLogged e purpose text before after
    × (after.send_failures ≡ 0)
Accounted e purpose text before (after, crashed x) =
    (after.unsent ≡ before.unsent) × (after.app_log ≡ before.app_log)
Accounted e purpose text before (after, raised) =
    (length after.unsent ≡ suc (length before.unsent)) × (after.app_log ≡ before.app_log)

module _ (e : Endpoint) where
  Accounted-same :
      (purpose text : Text) (b c : Client) (r : Client × Result)
      → b.unsent ≡ c.unsent
      → b.app_log ≡ c.app_log
      → Accounted e purpose text b r
      → Accounted e purpose text c r
  Accounted-same purpose text b c (after, skipped) u l h = (h.0 ∙ u, h.1 ∙ l)
  Accounted-same purpose text b c (after, crashed x) u l h = (h.0 ∙ u, h.1 ∙ l)
  Accounted-same purpose text b c (after, sent) u l h = (
    h.0 ∙ u,
    (h.1.0, h.1.1, h.1.2, h.1.3 ∙ ap (λ x. if e.logs h.1.0 then x ++ h.1.0 ∷ [] else x) l),
    h.2,
  )
  Accounted-same purpose text b c (after, qr_required x) u l h = (rw (h.0, u) refl, h.1 ∙ l)
  Accounted-same purpose text b c (after, not_ready x) u l h = (rw (h.0, u) refl, h.1 ∙ l)
  Accounted-same purpose text b c (after, failed x) u l h = (rw (h.0, u) refl, h.1 ∙ l)

  unless_raised-Accounted :
      (purpose text : Text) (error : Option Text) (c : Client) (r : Client × Result)
      → Accounted e purpose text c r
      → Accounted e purpose text c (unless_raised error c r)
  unless_raised-Accounted purpose text none c r h = h
  unless_raised-Accounted purpose text (some error) c r h = (refl, refl)

  delivered-Accounted :
      (purpose : Text) (p : Post) (c : Client)
      → Accounted e purpose p.text c (delivered e purpose p c, sent)
  unfolding delivered
  delivered-Accounted purpose p c = (refl, (_, refl, refl, refl), refl)

  -- Which way the exception of an attempt goes.
  on_failure-Accounted :
      (purpose : Text) (p : Post) (failure : Failure) (c : Client) (r : Client × Result)
      → Accounted e purpose p.text c r
      → Accounted e purpose p.text c (on_failure e p failure c r)
  unfolding refused
  on_failure-Accounted purpose p failure c r h = elim (Bool-cases failure.caught) [
    | inl caught ↦ rw caught h
    | inr other ↦ rw other (refl, refl)
  ]

  attempt_from-Accounted :
      (n : ℕ) (purpose : Text) (p : Post) (c : Client)
      → Accounted e purpose p.text c (attempt_from e n purpose p c)
  unfolding attempt_from give_up refused flag_unsent_message
  attempt_from-Accounted zero purpose p c = elim (Option-cases (e.answer c.posted p)) [
    | inl ok ↦ rw (ok, attempt_from) (delivered-Accounted purpose p c)
    | inr (failure, bad) ↦
        rw (bad, attempt_from)
          (on_failure-Accounted purpose p failure c _ (length-snoc c.unsent _, refl))
  ]
  attempt_from-Accounted (suc n) purpose p c = elim (Option-cases (e.answer c.posted p)) [
    | inl ok ↦ rw (ok, attempt_from) (delivered-Accounted purpose p c)
    | inr (failure, bad) ↦
        rw (bad, attempt_from)
          (on_failure-Accounted purpose p failure c _ (
            Accounted-same purpose p.text (refused e p c) c
              (attempt_from e n purpose p (refused e p c)) refl refl
              (attempt_from-Accounted n purpose p (refused e p c))))
  ]

  post_ready-Accounted :
      (d : Delivery) (purpose : Text) (p : Post) (c : Client) (r : Client × Result)
      → (r.1 ≡ sent → (r.0.unsent ≡ c.unsent) × (r.0.app_log ≡ c.app_log))
      → (r.1 ≢ sent → Accounted e purpose p.text c r)
      → Accounted e purpose p.text c (post_ready e d purpose p r)
  unfolding post_ready
  post_ready-Accounted d purpose p c (after, sent) ok bad =
      Accounted-same purpose p.text after c
        (attempt_from e (retries_left e d after) purpose p after) (ok refl).0 (ok refl).1
        (attempt_from-Accounted (retries_left e d after) purpose p after)
  post_ready-Accounted d purpose p c (after, skipped) ok bad = bad (λ h. cc)
  post_ready-Accounted d purpose p c (after, qr_required x) ok bad = bad (λ h. cc)
  post_ready-Accounted d purpose p c (after, not_ready x) ok bad = bad (λ h. cc)
  post_ready-Accounted d purpose p c (after, failed x) ok bad = bad (λ h. cc)
  post_ready-Accounted d purpose p c (after, crashed x) ok bad = bad (λ h. cc)

  require_session_ready-Accounted :
      (d : Delivery) (s : Session) (session purpose chat_id text : Text) (p : Post) (c : Client)
      → Accounted e purpose p.text c
          (post_ready e d purpose p (require_session_ready s session purpose chat_id text c))
  unfolding require_session_ready flag_unsent_message clear_qr_warning write_qr_warning
      not_ready_warning write_waha_warning
  require_session_ready-Accounted d s session purpose chat_id text p c =
      elim (Bool-cases s.needs_qr) [
        | inl qr ↦
            rw (qr, require_session_ready)
              (post_ready-Accounted d purpose p c _ (λ h. absurd (cc h))
                (λ _. (length-snoc c.unsent _, refl)))
        | inr no_qr ↦ elim (Bool-cases s.connected) [
          | inl up ↦
              rw (no_qr, up, require_session_ready)
                (post_ready-Accounted d purpose p c _ (λ _. (refl, refl)) (λ h. absurd (h refl)))
          | inr down ↦
              rw (no_qr, down, require_session_ready)
                (post_ready-Accounted d purpose p c _ (λ h. absurd (cc h))
                  (λ _. (length-snoc c.unsent _, refl)))
        ]
      ]

  -- A call without a destination changes neither log. One whose message is delivered leaves the
  -- audit of the unsent messages as it was, puts one entry with the text and the purpose into the
  -- log of the app, if that takes it, and resets the count of failures. One that raises because the
  -- session needs its QR code or is not ready, or because the last attempt failed with an exception
  -- that is caught, adds exactly one entry to the audit. One that ends in another exception (a
  -- timeout setting that is no number, an error of the HTTP protocol) changes neither log: that
  -- message leaves no entry.
  pub send_text-Accounted :
      (d : Delivery) (text purpose chat_id_override : Text) (c : Client)
      → Accounted e purpose text c (send_text e d text purpose chat_id_override c)
  unfolding send_text send_to
  send_text-Accounted d text purpose chat_id_override c =
      unless_raised-Accounted purpose text d.timeout_error c _
        (to (or_else (strip chat_id_override) (configured_chat_id d.chats purpose)))
    where
      to : (chat_id : Text) → Accounted e purpose text c (send_to e d text purpose chat_id c)
      to [] = (refl, refl)
      to (i ∷ chat_id) = unless_raised-Accounted purpose text e.session_error c _ (
          require_session_ready-Accounted d (e.session_status d.session) d.session purpose
            (i ∷ chat_id) text (record { session = d.session; chat_id = i ∷ chat_id; text = text })
            c)
