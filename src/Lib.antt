-- ===== src/Lib.antt =====
-- A verification library for DataOpsShowcase, a data platform that brings events from Kafka and
-- rows of an operational database into a PostgreSQL warehouse, loads a data vault there, checks
-- the data, runs dbt over HTTP, answers questions by a language model's SQL, and shows the state
-- of its services in a portal.
--
-- The parts and their files:
-- - Kafka: services/kafka/microbatch_consumer.py. `fetch_loop` is the `while` of `fetch`,
--   `poll_once` one round of it, `absorb` the part of the round that takes a message;
--   `seek_to_offsets`, `commit_offsets` and `enter` are the methods of these names.
--   Kafka/Termination is about the fuel of the loop, Kafka/Delivery about what a batch holds.
-- - Storage: services/storage/postgres_io.py. A table is the list of its rows; `statement` is one
--   INSERT with its conflict clause. Storage/Insert is about DO NOTHING.
-- - Watermarks: services/common/watermarks.py. The table of watermarks is a dict.
-- - Runs: services/common/run_metadata.py. The ledger is the list of its rows and the next serial
--   id.
-- - Ingestion: pipelines/dags/ingestion/_kafka_common.py. `consume_topic` calls the four parts
--   above, in the order of the source; a store holds the raw table, the watermarks and the
--   ledger, and an exception keeps what was committed before it (Exec). `attempt` is its `try`
--   with the handler, `consume_body` the body, `on_batch` what follows `fetch`. `Env` says what
--   the broker and the database answer in a run, failures included.
-- - Quality: services/quality/checks.py. A check's SQL is a `Query`, and `count_of` what
--   PostgreSQL counts for it; `run_check` is a round of the loop, `execute_checks` the loop.
-- - Portal: services/portal_web. Portal.antt, Portal/Services, Portal/Indicators and Portal/Graph
--   are status_service.py, Portal/Catalog is catalog.py. A snapshot is a dict of the containers'
--   states; `snapshot_loop`, `keyed_of` and `gather` are the loops of `container_snapshot` and
--   `build_service_rows`, and `flags_of` is a round of the one in `_diagram_indicator_triple`.
--   The JSON of the catalog is `CatalogData`, with `none` for a missing key.
-- - DbtClient: services/dbt_client/rest_client.py. `trigger_loop` is the loop of `trigger_run`,
--   `wait_loop` that of `wait_for_completion`, and `conclude` what the latter does with a
--   terminal status.
-- - Vault: services/vault/loaders.py and pipelines/dags/transformation/scd2_satellites.py.
--   Vault.antt has the hubs and the link, Vault/Satellite the satellites and their
--   reconciliation, Vault/Keys, Vault/Pairs and Vault/Link are about the keys and constraints of the
--   hubs and the link: `customer_inbox` and `order_inbox` are the temporary tables, `close_rows` the
--   UPDATE and `candidates` the SELECT of the INSERT of a load, `reconcile` the UPDATE of
--   `reconcile_late_arriving`. A satellite is the list of its rows. Vault/Dag has the tasks of
--   the DAG, with the run ledger of Runs, and its validation.
-- - DbtRest: services/dbt_rest/app. DbtRest.antt is db.py, with the table of runs as a list;
--   DbtRest/Argv, DbtRest/Worker and DbtRest/Http are main.py: the command lines, the thread of a
--   run, the routes. `World` says what the process, the disk and the database do in a thread,
--   `Start` what a request meets that starts one.
-- - Nl2sql: services/nl2sql_app/nl2sql. Nl2sql.antt is validator.py with schema_config.py,
--   Nl2sql/Chain is chain.py: `generate_sql` is the inner loop of `answer_question`,
--   `execute_sql` the outer one, and `Answers` what the model, the parser and the database answer
--   to each call.
--   Nl2sql/Queue, Nl2sql/Queue/Worker and Nl2sql/Http are app.py: `RedisQueryQueue`, a round of its
--   `_worker_loop`, the routes. `Round` says what Redis, json.dumps and the service answer in a round.
--   Nl2sql/Limits, Nl2sql/Answered and Nl2sql/Unparsed are about both loops, Nl2sql/Queue/Endings and
--   Nl2sql/Queue/Ends about a round, Nl2sql/Queue/Overwritten about the rounds behind it.
-- - Oltp: pipelines/dags/ingestion/ingest_oltp_to_stg.py. `page` is the query of `extract_table` for
--   a table with a watermark column and a key, `cursor_of` the watermark that it stores; Oltp/Ties
--   and Oltp/Rereads have the two other queries. Oltp/Pages is about the runs one after the other.
-- - Files: pipelines/dags/ingestion/ingest_minio_files_to_raw.py and services/storage/minio_io.py.
--   Files.antt is `discover_new_files`, Files/Ingest `ingest_file`, with `ingest_body` for its
--   `try` and `quarantine` for the handler, Files/Objects the listing and the JSON lines. A store
--   holds the table of files, the payments and the ledger.
-- - Atlas: infra/metadata/atlas/scripts. Atlas.antt is `validate_entities` of entity_publish.py, with
--   its two loops, Atlas/Publish the loop of its `main`, Atlas/Search the searches and the gates of
--   atlas_quality_gates.py. The fuel of a search is any number above that of the entities.
-- - Serving: services/serving/redis_materializer.py. `materialize_metric` is a round of the loop, and a
--   store holds Redis, the snapshot and the watermarks.
-- - Sequence: pipelines/tools/airflow_run_dags_sequence.py. `wait_loop` is the loop of
--   `wait_run`, `run_dags` the loop of `main`; the exit code and the DAGs that were triggered are
--   the result.
-- - Prelude has the shared types, tests and lemmas; each Tests and Sample file has concrete runs.
--
-- Bounds: Python's integers are ℕ, which is faithful for offsets, counts and ids. `fetch_loop`
-- has fuel `max_messages * max_empty_polls + max_empty_polls + 1`: every round adds a message, or
-- is one of at most `max_empty_polls` empty ones in a row. `wait_loop` has as its fuel any number
-- above that of the first GET after which the deadline has passed. The loop of Sequence runs over
-- the readings of the clock before the deadline, whose number is a parameter.
--
-- Not modelled: log lines, metrics, closing connections, and concurrency between runs of one DAG,
-- which Airflow serialises. The Kafka broker, JSON and UTF-8 decoding, psycopg2's cutting of rows
-- into statements, the Docker daemon, HTTP replies and the order in which a thread pool's futures
-- complete, SHA-256, the text of a number, the row that PostgreSQL takes where several match in
-- an UPDATE, UUIDs, sqlglot's parser, the language model, the bucket's client, Atlas and the parsing
-- of decimals are parameters, with their documented behaviour as named hypotheses. A hash of Redis
-- expires as documented. Superset's bootstrap, the Spark jobs, the training of models and the
-- generators of synthetic data are not modelled: the first three are calls of their libraries. `str.lower` is modelled on ASCII letters, and `strip` and
-- `split` on ASCII white space, but for the JSON lines and Atlas, and the regular expressions on ASCII.
pub mod Atlas
pub mod DbtClient
pub mod DbtRest
pub mod Exec
pub mod Files
pub mod Ingestion
pub mod Kafka
pub mod Nl2sql
pub mod Oltp
pub mod Portal
pub mod Prelude
pub mod Quality
pub mod Runs
pub mod Sequence
pub mod Serving
pub mod Storage
pub mod Vault
pub mod Watermarks
