-- ===== src/Lib.antt =====
-- OpenRadiusWeb, a network access control system around FreeRADIUS: what its RADIUS services do.
--
-- The parts and the files:
--   * services/auth/coa_manager.py, the service that changes sessions by RADIUS Change of
--     Authorization (RFC 5176), is Coa. Coa/Bytes holds struct.pack and UTF-8, Coa/RadiusCode and
--     Coa/RadiusAttr the enums, Coa/Packet the class RadiusPacket, Coa/Like the operator ILIKE,
--     Coa/Tables the rows and queries, Coa/Manager the network and the common parts of the
--     operations, Coa/Operations the four operations and `_execute_coa`, Coa/Handlers the lookups
--     and the two handlers of bus messages. The state is the record World: the identifier counter,
--     the tables, what was published and what was sent. Code that changes it is in the monad Exec,
--     which keeps the state that an exception leaves behind.
--   * services/auth/freeradius/mods-config/python/rlm_orw.py, the module that FreeRADIUS calls, is
--     Rlm. Rlm/Attrs holds the dict of a request (an attribute that comes twice is a list, on which
--     the methods of str raise), Rlm/Method and Rlm/Failure the detection of methods and of reasons,
--     Rlm/Tables the rows, Rlm/Mab the whitelist and `authorize`, Rlm/Groups the directory and the
--     mappings of groups, Rlm/PostAuth the log and `post_auth`. The state is the record Db.
--   * `_normalize_mac` of that module and the validator of shared/orw_common/models/mab_device.py,
--     which writes the whitelist that the module reads, are Mac.
--   * shared/orw_common/policy_evaluator.py, which says whether a policy's conditions hold of a
--     device, is Policy. Policy/Values holds how Python writes, compares and normalises values,
--     Policy/Evaluator the operators, Policy/Conditions the fields and the two loops over them.
--   * services/policy_engine/main.py publishes the actions of policies as messages of the bus, which
--     the CoA service subscribes to: `execute_action` is Engine, and the handler that runs the
--     policies of a device, with what it records and publishes, is Engine/Device.
--   * services/auth/freeradius_config_manager.py, which writes the configuration of FreeRADIUS from
--     the database, and freeradius_config_watcher.py, which does so in rounds and reloads FreeRADIUS,
--     are Config. Config/Tables holds the tables and the loaders, Config/Templates what the
--     templates are given, Config/Realms proxy.conf, Config/Clients clients.conf, Config/Files
--     `generate_all_configs`, Config/State the tracker `freeradius_config` and the files,
--     Config/Certs the certificates, Config/Apply `apply_configs`, and Config/Watcher the reload and
--     a round. The state is the record World of Config/State: tables, tracker, files by their paths,
--     and the number of signals.
--   * Of services/gateway, utils/safe_sql.py is Gateway/Sql, utils/audit.py is Gateway/Audit, and
--     features/auth (service.py and repository.py) is Gateway/Auth: Gateway/Auth/Redis holds
--     the commands on the counters, Gateway/Auth/Tables rows and queries, Gateway/Auth/Login the
--     login and its limits, Gateway/Auth/Users accounts and preferences, Gateway/Auth/Update the
--     change of a user by an admin. What the features on tables of a tenant share is Gateway/Rows:
--     a table with its audit log, the lookup, the update and the deletion of a row by its
--     identifier and its tenant, the end of a request (`get_db` of shared/orw_common/database.py,
--     which commits or rolls back), and the interface Columns, in which a feature says what its rows
--     are; Gateway/Rows/Assign holds the assignments of SET by the types of columns. On it stand
--     features/mab_devices, the whitelist, as Gateway/Mab (repository.py) with Gateway/Mab/Service
--     (service.py), features/group_vlan_mappings as Gateway/Mappings with
--     Gateway/Mappings/Service, and features/vlans as Gateway/Vlans with Gateway/Vlans/Service.
--   * shared/orw_common/secrets.py, the ciphertexts of secrets in the database, is Secrets:
--     Secrets/Base64 holds the urlsafe base64 of Python with its tolerant decoder, Secrets/Utf8 the
--     strict decoder of UTF-8 (the encoder is in Coa/Bytes). `_rotate_table` of scripts/rotate_secret_master.py, which writes the
--     ciphertexts of a table under a new key, is Secrets/Rotation.
--   * Value is what decoded JSON is in Python: a message of the bus, a policy, a context.
--
-- The theorems stand beside the code: Coa/Packet/Encoding and Coa/Packet/RoundTrip on packets,
-- Coa/Sending, Coa/Responses and Coa/Lookup on the service, Mac/Agreement on addresses,
-- Rlm/Failure/Codes, Rlm/Access, Rlm/Vlan, Rlm/Assigned and Rlm/Priority on the module, Policy/Negations and
-- Policy/Agreement on the evaluator, Engine/Assignment on the way of a message from the engine to
-- the CoA service, Engine/Evaluations on the rows of a run, Config/Lines on clients.conf,
-- Config/Tracker, Config/Rounds, Config/CertFiles, Config/Names, Config/Times and Config/Settled on what a round leaves and the
-- next one does, Gateway/Sql/Allowed on clauses, Gateway/Auth/Counters, Gateway/Auth/Lockout and
-- Gateway/Auth/Invariants on logins and accounts, Gateway/Auth/Kept on the change of a user, Gateway/Rows/Tenants and Gateway/Mab/Isolation on the
-- rows of other tenants, Gateway/Mab/Import on imports, Gateway/Mab/Radius on the way of a device
-- from the gateway to FreeRADIUS, Gateway/Mappings/Agreement on the two lookups of the VLAN for
-- groups, Gateway/Mappings/Creation and Gateway/Vlans/Creation on new rows,
-- Secrets/Base64/RoundTrip, Secrets/Utf8/RoundTrip, Secrets/RoundTrip, Secrets/Rotation/Kept and
-- Secrets/Rotation/Moved on secrets. The files named Tests apply them at concrete inputs.
--
-- Parameters: MD5, SHA-256, the network's answer, `decrypt_secret` in the services, the directory,
-- the clock, floats, patterns, the templates of Jinja, what comes of a write to the disk, the
-- container of FreeRADIUS, the checks of passwords and the making of tokens, and of the database
-- the casts, the refusals, the order of texts, which names it takes for one, the identifiers of new
-- rows and which rows a foreign key finds; Argon2id, AES-GCM and os.urandom. Whether an INSERT with a
-- cast behind a named parameter (`:details::jsonb`, `:actions::jsonb`) succeeds is a parameter too,
-- since it takes the driver and the text: services/gateway/tests/unit/test_no_inline_inet_cast.py
-- says that asyncpg never takes one. Redis is keys with a value and a time of expiry, and answers
-- every command: that a connection breaks between two commands is left out. A template is given the
-- time of its round; the theorem on rounds takes two times. Each theorem says what it takes of them.
--
-- Bounds and fuel: texts are lists of code points, and their case and blanks are those of ASCII.
-- The loop of `decode` runs on fuel, the number of bytes that it reads; each round takes two or
-- more. `str(n)` runs on n + 1 rounds, and each divides by ten. VLAN numbers are natural numbers,
-- as the models of the API admit them. Where the database may choose among rows, as between rows
-- of one priority, the first of the table stands for its choice; the theorem on the two lookups of
-- the VLAN for groups takes the rows in any two orders.
--
-- Not modelled: `add_ipv4`, which nothing calls; time stamps; logging; the keeping of connections
-- (a connection is there or not); transactions, but where a theorem names `get_db` (elsewhere a
-- change stands where a statement has made it, also where the request or the handler raises behind
-- it and rolls it back); the columns that the code
-- does not read; numbers with a fraction; in the details of a policy the value that a field was
-- found to have; the endless loops that wait for messages or for the next round; the command line of
-- the configuration manager and of the rotation. Of the gateway, the routes, the models of requests
-- and the features other than auth, vlans, mab_devices (without its import and export of CSV) and
-- group_vlan_mappings; services/policy_engine/evaluator.py, the copy of the evaluator that the engine
-- imports (it has the same statements, and Engine/Device runs the shared one); and the other
-- services.
pub mod Prelude
pub mod Coa
pub mod Value
pub mod Mac
pub mod Policy
pub mod Engine
pub mod Rlm
pub mod Secrets
pub mod Config
pub mod Gateway
