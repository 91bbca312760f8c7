-- ===== src/Lib.antt =====
-- PanamaCompra collector: the archive of public procurement records, its task queue, and the
-- notifier that announces records through a WAHA endpoint.
--
-- Parts, and how they interact. The collectors pass each sighted row to `insert_or_update_index`
-- of src/common.py, which keeps the SQLite tables. The task queue of src/50_tools/145-task-queue.py
-- reads these tables and drives the backfill through its cursor. The notifier,
-- src/20_pipeline/020-notify-whatsapp.py, reads the flags of the tables, filters the records by
-- keywords, sends messages through src/30_notify/010-waha-client.py and marks the records. A saved
-- detail page is read into fields, items and a close window, from which src/common.py makes the
-- calendar event and src/20_pipeline/030-collect-details.py the name of the record folder.
--   Prelude    Booleans, lists, integers, Python's texts as lists of code points
--   Table      a table with a key: SELECT, UPDATE and INSERT on a list of rows
--   Unicode    strip_accents and int; Python's Unicode tables are a parameter
--   Archive    the tables: opportunities, opportunity_status_history, closed_crawl_state and the CSV
--   Index      insert_or_update_index, status_change_code, reconcile_legacy_status_history
--   Crawl      get_closed_crawl_state, update_closed_crawl_state
--   Download   update_detail_status
--   TaskQueue  src/50_tools/145-task-queue.py, with the queue file and the settings as a state
--   Filter     parse_filter_rules and evaluate_filter of the notifier
--   Waha       configured_chat_id; Waha/Send: send_text with the session check and the retries
--   Notify     the notifier: Deliver (send_text and the marks), Record and Change (one record),
--              Digest (batches of new records), StatusDigest (of changes), Baseline; Shared and
--              Once hold proofs about them
--   Import     src/50_tools/190-import-remote-archive.py
--   ClosedIndex  src/20_pipeline/037-collect-closed-index.py: Loop (main), Kept, Cursor, Resume (one
--              run), Reach and Runs (the runs that follow one another)
--   Snapshot   src/20_pipeline/015-import-index-snapshot.py: the lines of the report; Report
--              (parse_snapshot), Store (import_records, main), and proofs about them
--   Ics        the calendar text of src/common.py: Escaping, Folding
--   DetailQueue  detail_pending_rows of src/20_pipeline/030-collect-details.py, and the one of
--              037b-collect-closed-details.py: Order (the statement), Rows (the queue)
--   Monitor    src/40_monitor/001b-monitor-web.py: the settings file; Session (the tokens), Access
--              and Granted (the access level of a request)
--   Cron       src/50_tools/160-manage-cron-schedule.py: Window (the expression), Entry (the crontab)
--   Splits     splitlines, the split at the first separator, and the last value of a key
--   Regex      what the sources use of Python's `re`; Parses and Fuel are about its matches
--   Naming     the folder leaves, labels and descriptions of src/common.py: Strip, Safe and Fixed are
--              about the texts that they allow
--   Details    the reading of a detail page in src/common.py: Window (dates and times), Fields,
--              Close (the close window), Items, Event (the summary, the event, the detail views, and
--              naming_fields of src/20_pipeline/030-collect-details.py); Groups, Instants, Resolved,
--              Fuel, Parsed, Stamps and Folder are about them
--   Records    rename_record_folder of src/common.py, on a disk of files and folders: Moving and
--              Kept are about it
--   Samples    example rows for the tests
--
-- A statement of SQL is a function on the list of rows, the transaction of a call is its result,
-- and the clock is an argument. Loops over rows, attempts, tasks and profiles are recursion on the
-- list or on the number of attempts left. The slices of a digest are taken with the number of rows
-- as fuel; each slice takes at least one row, so that it is enough. So is the length of a line for
-- its folding, the length of a text for the matches in it, and a number for its digits. The pages
-- of a crawl are counted down from its cap, as the source counts them up to it, and the clicks to
-- the cursor page likewise. In one run the clock does not move, and the text of a stop reason stands
-- without its numbers.
--
-- Parameters, as code outside the repository or not modelled here: Python's Unicode tables, the
-- WAHA endpoint, pathlib and, except for the rename, the folders on disk, SHA-256, the date
-- parsing of the notifier, the JSON of a detail file, the text of the messages except the digests
-- of changes, what the portal shows page by page with what a click on Next does, `re.findall` of
-- the snapshot parser, the HMAC, base64 and JSON of a session, and `shlex.split`. The writing of
-- JSON files beside the archive is not modelled. Not modelled: browser driving, HTML extraction,
-- the user interfaces, the command lines, the schema migrations and the writing of views.
pub mod Prelude
pub mod Table
pub mod Unicode
pub mod Archive
pub mod Index
pub mod Crawl
pub mod TaskQueue
pub mod Filter
pub mod Waha
pub mod Notify
pub mod Import
pub mod ClosedIndex
pub mod Ics
pub mod Download
pub mod Splits
pub mod Regex
pub mod Naming
pub mod Details
pub mod Records
pub mod Samples
pub mod Snapshot
pub mod Cron
pub mod DetailQueue
pub mod Monitor
