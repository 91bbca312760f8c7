-- ===== src/Notify/StatusDigest/Pending.antt =====
-- The pending changes of the records that a digest of status changes does not announce.
use panamacompra_collector_b.Prelude.{
  ℕ, suc, ◌≡◌, ◌⊎◌, Bool, true, false, not, Option, none, some, List, [], ◌∷◌, ◌++◌, if◌then◌else◌,
  take, Text, codes, ◌==◌,
}
use panamacompra_collector_b.Archive.{Tracking}
use panamacompra_collector_b.Notify.{Desk, Node}
use panamacompra_collector_b.Notify.StatusDigest.{
  Change, build_status_digest_messages, Step, at_outcome, at_snapshot, at_clear, kind_of,
}
use panamacompra_collector_b.Notify.StatusDigest.Kept.{HasTracking, concerns}

-- The changes of all the messages.
abbrev pub changes_of : List (List Change × Text) → List Change
changes_of [] = []
changes_of ((chunk, text) ∷ rest) = chunk ++ changes_of rest

-- All the marks of a record were made: no statement of its marking raised an exception.
abbrev all_marked : Bool → Option Step → Bool
all_marked clears none = true
all_marked clears (some at_outcome) = false
all_marked clears (some at_snapshot) = false
all_marked clears (some at_clear) = not clears

-- The number of the changes whose marks were all made.
unfoldable pub marked_of : (Text → Bool) → (Text → Option Step) → List Change → ℕ
marked_of clears breaks [] = 0
marked_of clears breaks (change ∷ changes) =
    let rest = marked_of clears breaks changes in
    if all_marked (clears change.row.numero) (breaks change.row.numero) then suc rest else rest

module _ (t : Tracking) (numero : Text) (d : Desk) where
  module _ (purpose default : Text) (clears : Text → Bool) (breaks : Text → Option Step) where
    -- The changes of the messages that were accepted.
    abbrev accepted_of : List (List Change × Text) → Node × ℕ × ℕ → List Change
    accepted_of messages r = changes_of (take r.1 messages)

    abbrev Spares : List (List Change × Text) → Node × ℕ × ℕ → Type 0
    Spares messages r =
        (concerns numero (accepted_of messages r) ≡ true) ⊎ HasTracking t numero r.0.db

-- The messages of the digest.
abbrev pub digest_messages :
    Desk → (Option Text → Text) → Text → ℕ → List Change → List (List Change × Text)
digest_messages d fmt_dt source_name size entries =
    build_status_digest_messages fmt_dt d.now_str source_name size
      (codes "🟡 *Actualizaciones de Oportunidades") entries

-- The changes of the messages that were accepted, which are the first ones.
abbrev pub accepted_changes_of :
    Desk → (Option Text → Text) → Text → ℕ → List Change → ℕ → List Change
accepted_changes_of d fmt_dt source_name size entries messages =
    changes_of (take messages (digest_messages d fmt_dt source_name size entries))

-- The number is that of the accepted changes with all their marks made, and a record that none of
-- them is about has this tracking.
abbrev pub Announces :
    (Text → Option Step) → List Change → List Change → Tracking → Text → Node × ℕ × ℕ → Type 0
Announces breaks entries accepted t numero r =
    (r.2 ≡ marked_of (λ k. kind_of k entries == codes "update") breaks accepted)
    × ((concerns numero accepted ≡ true) ⊎ HasTracking t numero r.0.db)
