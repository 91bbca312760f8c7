-- ===== src/Samples.antt =====
-- Small archives and listing rows on which the tests of several components run.
use panamacompra_collector_b.Prelude.{String, none, some, [], ◌∷◌, codes}
use panamacompra_collector_b.Archive.{
  Listing, Origin, Detail, Opportunity, IndexRow, Db, no_tracking, no_notice,
}

abbrev pub listing : String → String → Listing
listing grupo estado = record {
  grupo = some (codes grupo);
  estado = some (codes estado);
  descripcion = some (codes "Compra de insumos de salud");
  short_description = some (codes "Compra de insumos de salud");
  entidad = some (codes "MINSA");
  dependencia = some (codes "Compras");
  fecha = some (codes "23-06-2026");
  modalidad = some (codes "Cotizacion");
  link = some (codes "https://p/1");
  last_seen = codes "2026-07-01T10:00:00";
  tipo_url = some (codes "url");
}

abbrev pub origin : Origin
origin = record {
  first_seen = some (codes "2026-06-23T08:00:00");
  date_folder = some (codes "26-06-23");
  record_folder = some (codes "/r/26-06-23/N-1");
  index_json_path = some (codes "/r/26-06-23/N-1/N-1.json");
}

abbrev pub index_row : String → String → String → IndexRow
index_row numero grupo estado = record {
  numero = codes numero;
  listing = listing grupo estado;
  origin = origin;
  detail_status = some (codes "pending");
  finish_date_guess = some [];
}

abbrev pub saved_detail : Detail
saved_detail = record {
  detail_status = some (codes "saved");
  detail_attempts = 1;
  detail_saved_at = some (codes "2026-06-24T08:00:00");
  detail_json_path = none;
  finish_date_guess = none;
  start_date_guess = none;
}

-- A record of the archive that was announced with a given status.
abbrev pub announced : String → String → String → String → Opportunity
announced numero grupo estado notified = record {
  numero = codes numero;
  listing = listing grupo estado;
  origin = origin;
  detail = saved_detail;
  tracking = no_tracking;
  notice = record no_notice {
    notified_at = some (codes "2026-06-24 09:00:00");
    last_notified_status = some (codes notified);
  };
}

abbrev pub empty_db : Db
empty_db = record { opportunities = []; history = []; crawl = []; csv = [] }

-- One announced open record, and one that closed without the index seeing it.
abbrev pub archive : Db
archive = record empty_db {
  opportunities =
      announced "N-1" "Abiertas" "Abierta" "Abierta"
      ∷ announced "N-2" "Closed" "Cerrada" "Abierta"
      ∷ [];
}
