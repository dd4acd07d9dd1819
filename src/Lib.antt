-- ===== src/Lib.antt =====
-- CompliancePulse runs compliance rules on a host, scores what they find and keeps the history of
-- each organization. Its backend has a web interface, a scheduler that turns due schedules into
-- scan jobs, and a worker that claims one job at a time and runs the scan of its rule group. All
-- of them share one database and one security configuration.
--
-- The files and the code that they model, by paths from the repository's root:
--   Models       backend/app/models/domain.py: each table as a record with all of its columns
--   Session      backend/app/database.py: the session as a state (World), the tenant filter, the clock, and
--                steps that may raise (Monad); a value that a column holds as JSON is blank, malformed or
--                encoded
--   Security     backend/app/security: config.py (Settings), utils.py (Sandbox, Masking), audit.py (Audit),
--                rate_limit.py (RateLimit), api_keys.py (ApiKeys)
--   Engine       backend/engine: rule_engine.py (RuleEngine), ai_summary.py (Summary), scan_executor.py
--                (Scoring, Executor), scheduler.py (Scheduler)
--   Worker       backend/worker.py
--   Auth         backend/app/auth: signing.py (Signing), dependencies.py (Access), utils.py (Sessions),
--                password_hasher.py (Passwords), forms.py (Forms), router.py (Entry, and Slugs for the
--                search for a slug); backend/app/main.py (Middleware)
--   Agents       backend/app/api/agent_machine.py: the endpoints of the remote agents
--   Services     backend/app/services: schedule_service.py (Schedules), scan_service.py (Scans),
--                benchmark_loader.py (Benchmarks), rule_engine.py (RuleExecution); backend/app/api/rules.py
--                (Rules), schedules.py (Schedules.Update)
--   Prelude      what the modules share: lists, texts, numbers, dictionaries
--   Tests        the theorems at a small world
-- A method of a class is a function of the same name without its leading underscore; a part of
-- one that follows an early return has a name of its own. Texts are lists of character codes,
-- times are numbers of microseconds. A step keeps what it stored before it raised.
--
-- Parameters: the machine that rules run on (Engine.Host: the file system, processes, sockets,
-- regular expressions), the clock, the outcome of the commits that the code guards, the rounding of
-- the score, which works on floats, the write of the artifact files, which may fail, the signer's
-- HMAC and the API keys' digest, scrypt and base64, the tables of Unicode for a slug, the regular
-- expression of an email, what the secrets module draws, the backend of the session store, the files
-- of benchmarks as YAML and pydantic read them, how the driver stores a value that is no text or
-- refuses it, the hundredths that stand for an uploaded float, JSON and the ISO form of a time in a
-- session's payload, whether the tenant filter reaches `session.get`, and where the database sorts a
-- missing time. The standard library's shlex.split is modelled by its documented rules.
-- Printing a number is on fuel of one more than the number, which is enough since each digit
-- divides it by ten; the search for a slug is on fuel of one more than the number of
-- organizations, which is enough since no two tries are the same; all other loops run over lists.
--
-- Not modelled: the web pages, the request plumbing and the endpoints that only pass on to a service,
-- the header-driven sessions of test mode, logging and error pages, uploads to files, settings and
-- migrations, the text of the artifact files, the sleeping loops around a round of the scheduler and
-- a step of the worker, and other processes that work on the database between the statements of a step.
pub mod Agents
pub mod Auth
pub mod Engine
pub mod Models
pub mod Prelude
pub mod Security
pub mod Services
pub mod Session
pub mod Tests
pub mod Worker
