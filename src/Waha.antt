-- ===== src/Waha.antt =====
-- src/30_notify/010-waha-client.py. This file: which chat a message of a purpose goes to. The
-- environment and the saved files enter as a `Settings`, where an unset variable is the empty
-- text and a missing file is `none`.
pub mod Routing
pub mod Send
mod Tests
use panamacompra_collector_b.Prelude.{
  ◌+◌, Bool, not, ◌&&◌, ◌||◌, Option, none, some, List, [], ◌∷◌, ◌++◌, if◌then◌else◌, any, Text,
  codes, ◌==◌, is_empty, strip, member,
}

-- `CHAT_PURPOSES`
abbrev pub chat_purposes : List Text
chat_purposes =
    codes "index"
    ∷ codes "details"
    ∷ codes "status"
    ∷ codes "open_now"
    ∷ codes "system"
    ∷ codes "summary"
    ∷ []

pub record Settings : Type 0 where
  -- PC_WAHA_CHAT_ID_<PURPOSE> and waha_chat_id_<purpose>.txt
  pub purpose_env : Text → Text
  pub purpose_file : Text → Option Text
  -- PC_WAHA_CHAT_ID and waha_chat_id.txt
  pub default_env : Text
  pub default_file : Option Text

-- `a or b` on texts.
abbrev pub or_else : Text → Text → Text
or_else [] b = b
or_else (c ∷ a) b = c ∷ a

unfoldable pub read_chat_file : Option Text → Text
read_chat_file none = []
read_chat_file (some content) = strip content

-- `_purpose_chat_id_without_fallback`
unfoldable pub purpose_chat_id : Settings → Text → Text
purpose_chat_id c purpose =
    if not (member purpose chat_purposes)
    then []
    else or_else (strip (c.purpose_env purpose)) (read_chat_file (c.purpose_file purpose))

unfoldable pub default_chat_id : Settings → Text
default_chat_id c = or_else (strip c.default_env) (read_chat_file c.default_file)

-- The loop of `_single_purpose_fallback_chat_id`: the distinct values that are set, in order.
unfoldable pub distinct_values : Settings → List Text → List Text → List Text
distinct_values c values [] = values
distinct_values c values (purpose ∷ purposes) =
    let value = purpose_chat_id c purpose in
    distinct_values c
      (if not (is_empty value) && not (member value values) then values ++ value ∷ [] else values)
      purposes

abbrev pub only : List Text → Text
only (value ∷ []) = value
only _ = []

unfoldable pub single_chat_id : Settings → Text
single_chat_id c = only (distinct_values c [] chat_purposes)

unfoldable pub configured_chat_id : Settings → Text → Text
configured_chat_id c purpose = or_else (purpose_chat_id c purpose) (
    or_else (if purpose == codes "open_now" then purpose_chat_id c (codes "index") else [])
      (or_else (default_chat_id c) (single_chat_id c)))

unfoldable pub any_destination_configured : Settings → Bool
any_destination_configured c =
    not (is_empty (default_chat_id c))
    || any (λ purpose. not (is_empty (purpose_chat_id c purpose))) chat_purposes
