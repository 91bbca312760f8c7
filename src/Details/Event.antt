-- ===== src/Details/Event.antt =====
-- The summary and the calendar event of a record, its detail views, and the name of its folder.
use panamacompra_collector_b.Prelude.{
  ℕ, String, Bool, not, ◌&&◌, ◌||◌, Option, none, some, List, [], ◌∷◌, ◌++◌, map, eqb,
  if◌then◌else◌, take, drop, keep, Text, codes, ◌==◌, is_empty, strip,
}
use panamacompra_collector_b.Unicode.{Unicode}
use panamacompra_collector_b.Filter.{split_by, join}
use panamacompra_collector_b.Ics.{Organizer}
use panamacompra_collector_b.Naming.{
  text_or, desc_slug, build_record_folder_leaf, date_folder_from_finish_stamp,
}
use panamacompra_collector_b.Details.Fields.{norm_label, find_kv, put, parse_detail_fields}
use panamacompra_collector_b.Details.Close.{Window, resolve_close_datetimes, compute_finish_stamp}
use panamacompra_collector_b.Details.Items.{PageTable, Item, parse_detail_items}

pub record Contact : Type 0 where
  pub nombre : Text
  pub cargo : Text
  pub telefono : Text
  pub correo_electronico : Text

pub record Summary : Type 0 where
  pub numero : Text
  pub descripcion : Text
  pub objeto_de_la_contratacion : Text
  pub entidad : Text
  pub dependencia : Text
  pub unidad_de_compra : Text
  pub direccion : Text
  pub provincia_de_entrega : Text
  pub contacto : Contact
  pub forma_de_entrega : Text
  pub dias_de_entrega : Text
  pub forma_de_pago : Text
  pub dia_y_hora_de_entrega : Text
  pub precio_estimado : Text
  pub enlace_publico : Text
  pub enlace_interno : Text

-- `find_kv` with one needle, and with two.
abbrev kv : Unicode → List (Text × Text) → String → Text
kv u fields needle = find_kv u fields (codes needle ∷ [])

abbrev kv2 : Unicode → List (Text × Text) → String → String → Text
kv2 u fields first second = find_kv u fields (codes first ∷ codes second ∷ [])

unfoldable pub build_summary : Unicode → List (Text × Text) → Text → Summary
build_summary u fields numero = record {
  numero = text_or (kv u fields "numero") numero;
  descripcion = kv u fields "descripcion";
  objeto_de_la_contratacion = kv u fields "objeto";
  entidad = kv u fields "entidad";
  dependencia = kv u fields "dependencia";
  unidad_de_compra = kv2 u fields "unidad" "compra";
  direccion = kv u fields "direccion";
  provincia_de_entrega = kv2 u fields "provincia" "entrega";
  contacto = record {
    nombre = kv u fields "nombre";
    cargo = kv u fields "cargo";
    telefono = kv u fields "telefono";
    correo_electronico = kv u fields "correo";
  };
  forma_de_entrega = kv2 u fields "forma" "entrega";
  dias_de_entrega = text_or (kv2 u fields "dias" "entrega") (kv2 u fields "termino" "entrega");
  forma_de_pago = kv2 u fields "forma" "pago";
  dia_y_hora_de_entrega = find_kv u fields (codes "dia" ∷ codes "hora" ∷ codes "entrega" ∷ []);
  precio_estimado = kv u fields "precio";
  enlace_publico = kv2 u fields "enlace" "publico";
  enlace_interno = kv2 u fields "enlace" "interno";
}

abbrev pub filled_texts : List Text → List Text
filled_texts = keep (λ text. not (is_empty text))

-- The attendees of PC_CALENDAR_ATTENDEES, or of its default.
unfoldable pub calendar_attendees : Text → List Text
calendar_attendees raw =
    map strip (keep (λ a. not (is_empty (strip a))) (split_by (λ c. eqb c b',') raw))

unfoldable pub labelled_value : Unicode → Text → List (Text × Text) → Text
labelled_value u label [] = []
labelled_value u label ((key, value) ∷ fields) =
    if not (is_empty value) && norm_label u key == label
    then value
    else labelled_value u label fields

unfoldable pub location_of : Unicode → List (Text × Text) → Text
location_of u fields =
    let provincia =
      text_or (labelled_value u (codes "provincia") fields) (kv u fields "provincia") in
    let parts = filled_texts (provincia ∷ kv u fields "direccion" ∷ []) in
    text_or (join (codes " - ") (map (λ p. codes "(" ++ p ++ codes ")") parts)) (codes "Panamá, PA")

abbrev item_text : Item → Text
item_text it =
    join (codes " ")
      (filled_texts (strip it.cantidad ∷ strip it.unidad_de_medida ∷ strip it.descripcion ∷ []))

-- An empty line before a part that is not the first.
abbrev spaced : List Text → List Text
spaced [] = []
spaced (line ∷ lines) = (line ∷ lines) ++ [] ∷ []

abbrev with_link : Text → List Text
with_link [] = []
with_link (c ∷ url) = (codes "LINK : " ++ c ∷ url) ∷ []

abbrev with_description : Text → List Text → List Text
with_description [] lines = lines
with_description (c ∷ text) lines = spaced lines ++ (codes "DESCR: " ++ c ∷ text) ∷ []

abbrev with_items : List Item → List Text → List Text
with_items [] lines = lines
with_items (item ∷ items) lines =
    spaced lines ++ codes "ITEMS:" ∷ filled_texts (map item_text (item ∷ items))

unfoldable pub calendar_description : Unicode → List (Text × Text) → List Item → Text → Text
calendar_description u fields items link =
    let url =
      text_or link (text_or (kv2 u fields "enlace" "publico") (kv2 u fields "enlace" "interno")) in
    join (b'\n' ∷ [])
      (with_items items (with_description (kv u fields "descripcion") (with_link url)))

pub record Event : Type 0 where
  pub uid : Text
  pub summary : Text
  pub timezone : Text
  pub date : Text
  pub start : Text
  pub end : Text
  pub dtstart : Text
  pub dtend : Text
  pub dtstamp : Text
  pub source_window : Text
  pub location : Text
  pub organizer : Organizer
  pub attendees : List Text
  pub url_publico : Text
  pub url_interno : Text
  pub precio_estimado : Text
  pub description : Text

-- What the event takes from the environment and the clock: CALENDAR_TZ, PC_CALENDAR_ATTENDEES, and
-- `dtstamp or now_iso()`.
pub record EventSettings : Type 0 where
  pub timezone : Text
  pub attendees : Text
  pub dtstamp : Text

abbrev in_parens : Text → Text
in_parens [] = []
in_parens (c ∷ numero) = codes "(" ++ c ∷ numero ++ codes ")"

abbrev uid_of : Text → Text
uid_of [] = []
uid_of (c ∷ numero) = c ∷ numero ++ codes "@panamacompra"

abbrev event_of :
    Unicode → EventSettings → List (Text × Text) → List Item → Text → Text → Window → Event
event_of u settings fields items numero link window = record {
  uid = uid_of numero;
  summary = join (codes " / ") (filled_texts (kv u fields "descripcion" ∷ in_parens numero ∷ []));
  timezone = settings.timezone;
  date = take 10 window.dtstart;
  start = take 5 (drop 11 window.dtstart);
  end = take 5 (drop 11 window.dtend);
  dtstart = window.dtstart;
  dtend = window.dtend;
  dtstamp = settings.dtstamp;
  source_window = window.source_window;
  location = location_of u fields;
  organizer = record {
    email = some (kv u fields "correo");
    name = some (kv u fields "nombre");
    role = some (kv u fields "cargo");
  };
  attendees = calendar_attendees settings.attendees;
  url_publico = text_or link (kv2 u fields "enlace" "publico");
  url_interno = kv2 u fields "enlace" "interno";
  precio_estimado = kv u fields "precio";
  description = calendar_description u fields items link;
}

-- The key/values of the window are those of the tables, where a caller passes them, else the fields.
abbrev window_fields : Option (List (Text × Text)) → List (Text × Text) → List (Text × Text)
window_fields none fields = fields
window_fields (some key_values) fields = key_values

unfoldable pub build_calendar :
    Unicode
    → EventSettings
    → List (Text × Text)
    → List Item
    → Text
    → Text
    → Option (List (Text × Text))
    → Text
    → Event
build_calendar u settings fields items numero link window_key_values window_text =
    event_of u settings fields items (text_or (kv u fields "numero") numero) link
      (resolve_close_datetimes u (window_fields window_key_values fields) window_text)

abbrev put_pairs : List (Text × Text) → List (Text × Text) → List (Text × Text)
put_pairs [] kv = kv
put_pairs ((key, value) ∷ pairs) kv = put_pairs pairs (put key value kv)

-- `agg_kv.update(table.get("key_values", {}))` for each table.
unfoldable pub aggregate : List PageTable → List (Text × Text) → List (Text × Text)
aggregate [] kv = kv
aggregate (table ∷ tables) kv = aggregate tables (put_pairs table.key_values kv)

pub record Views : Type 0 where
  pub summary : Summary
  pub items : List Item
  pub calendar : Event
  pub fields : List (Text × Text)

unfoldable pub build_detail_views :
    Unicode → EventSettings → Text → List PageTable → Text → Text → Views
build_detail_views u settings text tables numero link =
    let fields = parse_detail_fields u text in
    let items = parse_detail_items u text tables in
    record {
      summary = build_summary u fields numero;
      items = items;
      calendar =
          build_calendar u settings fields items numero link (some (aggregate tables [])) text;
      fields = fields;
    }

-- The columns of the record's row that its folder name needs.
pub record NamedRow : Type 0 where
  pub numero : Text
  pub descripcion : Text
  pub short_description : Text

pub record NamingFields : Type 0 where
  pub finish_stamp : Text
  pub slug : Text
  pub proposed_folder_name : Text

-- `slug_max` is DESC_SLUG_MAX.
unfoldable pub naming_fields : Unicode → ℕ → List PageTable → Text → NamedRow → NamingFields
naming_fields u slug_max tables text row =
    let agg_kv = aggregate tables [] in
    let finish_stamp = compute_finish_stamp u agg_kv text in
    let source =
      text_or (kv u agg_kv "descripcion") (text_or row.descripcion row.short_description) in
    let slug = desc_slug u slug_max source in
    record {
      finish_stamp = finish_stamp;
      slug = slug;
      proposed_folder_name = build_record_folder_leaf finish_stamp row.numero slug;
    }

-- Where `maybe_rename_folder` has the record folder moved: its new leaf and its new day folder.
unfoldable pub maybe_rename_folder : Unicode → Bool → Text → Text → Option (Text × Text)
maybe_rename_folder u rename_after_detail numero proposed_folder_name =
    if not rename_after_detail
      || is_empty proposed_folder_name
      || proposed_folder_name == build_record_folder_leaf [] numero []
    then none
    else some (proposed_folder_name, date_folder_from_finish_stamp u proposed_folder_name)
