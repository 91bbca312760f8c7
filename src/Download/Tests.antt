-- ===== src/Download/Tests.antt =====
-- A download that failed, on a record of the samples.
use panamacompra_collector_b.Prelude.{◌≡◌, refl, ◌≢◌, true, none, some, codes, ◌==◌}
use panamacompra_collector_b.Table
use panamacompra_collector_b.Samples.{announced, archive}
use panamacompra_collector_b.Archive.{Detail, find_existing_opportunity}
use panamacompra_collector_b.Download.{
  Download, Grows, update_detail_status, update_detail_status-Grows,
}

abbrev failed : Download
failed = record {
  status = codes "failed";
  detail_json_path = none;
  finish_date_guess = none;
  start_date_guess = none;
  increment_attempts = true;
}

found :
    find_existing_opportunity archive (codes "N-1")
    ≡ some (announced "N-1" "Abiertas" "Abierta" "Abierta")
unfolding find_existing_opportunity Table.find codes ◌==◌
found = refl

update_detail_status-Grows_example :
    (new : Detail) × (find_existing_opportunity
        (update_detail_status (codes "now") (codes "N-1") failed archive)
        (codes "N-1")
      ≡ some (record (announced "N-1" "Abiertas" "Abierta" "Abierta") { detail = new }))
    × Grows (announced "N-1" "Abiertas" "Abierta" "Abierta").detail new
    × (codes "N-1" ≢ codes "N-1" → new ≡ (announced "N-1" "Abiertas" "Abierta" "Abierta").detail)
update_detail_status-Grows_example =
    update_detail_status-Grows (codes "now") (codes "N-1") (codes "N-1") failed archive
      (announced "N-1" "Abiertas" "Abierta" "Abierta") found
