-- ===== src/Naming.antt =====
-- The names that src/common.py makes of texts: folder leaves, file labels and short descriptions.
pub mod Strip
pub mod Safe
pub mod Fixed
mod Tests
use panamacompra_collector_b.Prelude.{
  str, ℕ, ◌+◌, ◌-◌, ◌/◌, Bool, true, false, not, ◌&&◌, ◌||◌, Option, none, some, List, [], ◌∷◌,
  ◌++◌, map, ltb, leb, eqb, if◌then◌else◌, length, take, drop, keep, Text, codes, is_empty,
  is_space, strip_by, strip, contains, member,
}
use panamacompra_collector_b.Unicode.{Unicode, strip_accents}
use panamacompra_collector_b.Filter.{split_by, join}
use panamacompra_collector_b.Regex.{one, then_, group, exactly, search, squeeze, Found}

-- `text or default`
abbrev pub text_or : Text → Text → Text
text_or [] default = default
text_or (c ∷ text) default = c ∷ text

unfoldable pub clean : Text → Text
clean text = strip (squeeze is_space b' ' false text)

abbrev pub is_upper : ℕ → Bool
is_upper c = leb b'A' c && leb c b'Z'

abbrev pub is_lower : ℕ → Bool
is_lower c = leb b'a' c && leb c b'z'

abbrev pub is_figure : ℕ → Bool
is_figure c = leb b'0' c && leb c b'9'

-- `[A-Za-z0-9._()-]`, and with the space.
unfoldable pub is_safe : ℕ → Bool
is_safe c =
    is_upper c
    || is_lower c
    || is_figure c
    || eqb c b'.'
    || eqb c b'_'
    || eqb c b'('
    || eqb c b')'
    || eqb c b'-'

unfoldable pub is_kept : ℕ → Bool
is_kept c = is_safe c || eqb c b' '

-- The characters that are stripped from the ends of a name.
unfoldable pub at_ends : ℕ → Bool
at_ends c = eqb c b'.' || eqb c b'_' || eqb c b'-' || eqb c b' '

unfoldable pub safe_name : Text → Text
safe_name text =
    text_or
      (take 160 (
        strip_by at_ends
          (squeeze is_space b'_' false (squeeze (λ c. not (is_kept c)) b'_' false (clean text)))))
      (codes "unknown")

abbrev is_short : ℕ → Bool
is_short c =
    is_upper c
    || is_lower c
    || is_figure c
    || member (c ∷ []) (map (λ x. x ∷ []) (codes "ÁÉÍÓÚÜÑáéíóúüñ .,;:_()/-"))

unfoldable pub short_description : Text → Text
short_description text = strip (take 80 (keep is_short (clean text)))

abbrev is_vowel : ℕ → Bool
is_vowel c = eqb c b'A' || eqb c b'E' || eqb c b'I' || eqb c b'O' || eqb c b'U'

abbrev is_hyphen : ℕ → Bool
is_hyphen c = eqb c b'-'

unfoldable pub desc_slug : Unicode → ℕ → Text → Text
desc_slug u max_len text =
    let letters = keep (λ c. not (is_vowel c)) (u.upper (strip_accents u text)) in
    let dashed = map (λ c. if is_upper c || is_figure c then c else b'-') letters in
    strip_by is_hyphen (take max_len (strip_by is_hyphen (squeeze is_hyphen b'-' false dashed)))

-- `(stamp)-(number)-(label)`
abbrev pub leaf_of : Text → Text → Text → Text
leaf_of stamp number label =
    codes "(" ++ stamp ++ codes ")-(" ++ number ++ codes ")-(" ++ label ++ codes ")"

abbrev pub colon_to_hyphen : ℕ → ℕ
colon_to_hyphen c = if eqb c b':' then b'-' else c

unfoldable pub build_record_folder_leaf : Text → Text → Text → Text
build_record_folder_leaf finish_stamp numero desc =
    leaf_of (safe_name (map colon_to_hyphen (text_or finish_stamp (codes "NO-DATE"))))
      (safe_name (text_or numero (codes "NO-NUMERO"))) (safe_name (text_or desc (codes "NO-DESC")))

abbrev pub is_decimal : Unicode → ℕ → Bool
is_decimal u c = elim (u.decimal c) [ none ↦ false | some d ↦ true ]

-- (\d{4})-(\d{2})-(\d{2})
unfoldable pub iso_date : Unicode → Text → List (List Text × Text)
iso_date u = then_ (group (exactly 4 (is_decimal u))) (
    then_ (one is_hyphen) (
      then_ (group (exactly 2 (is_decimal u)))
        (then_ (one is_hyphen) (group (exactly 2 (is_decimal u))))))

abbrev pub folder_of : List Text → Text
folder_of (year ∷ month ∷ day ∷ []) = drop 2 year ++ codes "-" ++ month ++ codes "-" ++ day
folder_of other = []

abbrev pub folder_found : Option Found → Text
folder_found none = []
folder_found (some found) = folder_of found.groups

unfoldable pub date_folder_from_finish_stamp : Unicode → Text → Text
date_folder_from_finish_stamp u finish_stamp = folder_found (search (iso_date u) finish_stamp)

unfoldable pub section_stopwords : List Text
section_stopwords =
    codes "de"
    ∷ codes "la"
    ∷ codes "del"
    ∷ codes "el"
    ∷ codes "los"
    ∷ codes "las"
    ∷ codes "y"
    ∷ codes "en"
    ∷ codes "a"
    ∷ codes "para"
    ∷ []

-- `f"{n:02d}"` and `f"{n:03d}"`
abbrev zeros : ℕ → Text → Text
zeros n text = if ltb (length text) n then b'0' ∷ text else text

abbrev pub two_digits : ℕ → Text
two_digits n = zeros 2 (str n)

abbrev pub three_digits : ℕ → Text
three_digits n = zeros 3 (zeros 2 (str n))

abbrev is_section_word : Text → Bool
is_section_word w = not (is_empty w) && not (member w section_stopwords)

unfoldable pub section_identifier : Unicode → Text → ℕ → Text
section_identifier u section index =
    let words =
      keep is_section_word
        (split_by (λ c. not (is_lower c || is_figure c)) (u.lower (strip_accents u section))) in
    text_or (strip_by is_hyphen (take 28 (join (codes "-") words)))
      (codes "tabla-" ++ three_digits index)

abbrev underscore_to_hyphen : ℕ → ℕ
underscore_to_hyphen c = if eqb c b'_' then b'-' else c

unfoldable pub split_file_label : Unicode → Text → Text
split_file_label u value =
    u.upper
      (safe_name (map underscore_to_hyphen (strip_accents u (text_or value (codes "SECTION")))))

unfoldable pub detect_url_type : Unicode → Text → Text
detect_url_type u link =
    if contains link (codes "/solicitud-de-cotizacion/")
    then codes "solicitud-de-cotizacion"
    else if contains link (codes "/pliego-de-cargos/")
    then codes "pliego-de-cargos"
    else if contains (u.lower link) (codes "vistapreviacp")
        || contains (u.lower link) (codes "numlc=")
    then codes "vista-previa"
    else codes "unknown"
