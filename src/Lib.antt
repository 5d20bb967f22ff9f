-- ===== src/Lib.antt =====
-- A model of the Stra2us server: the device API with its authentication, permissions, key-value store
-- and message queues, the credentials and sessions of admins, catalogs and what the customer pages
-- show of them, and backup and restore, with the theorems that make them correct.
--
-- A device signs each request with its secret. verify_device_request checks the signature and loads
-- the device's ACL; check_acl decides on each key or topic; the handlers read and write Redis and
-- sign their answers. Admins pass the same check_acl with ACLs of their own, create and revoke
-- devices, and dump Redis to an envelope or restore it. They sign in with a password or by Google,
-- and the middleware lets a request for their pages through on either or on a session cookie.
--
-- Files:
--   Prelude, Result, Exec    shared notation: lists and texts (a text is its list of code points, a
--                            byte string its list of numbers), integers, errors as values, and
--                            handlers as functions from a Redis state to a result and a state. What a
--                            handler wrote before it raised stays written.
--   Builtins                 the parts of Python's library that the code calls: int and str, hex,
--                            UTF-8, base64, compare_digest.
--   Value                    what JSON and MessagePack decode to.
--   Redis                    the Redis commands as an abstract state with the documented laws, XREAD
--                            over the entries of a stream, and a Redis in memory that meets the laws.
--   Acl                      backend/src/api/dependencies.py: check_acl and what it calls.
--   Security                 backend/src/core/security.py: signatures, the replay window, the stream
--                            cipher of encrypted values.
--   Device                   backend/src/api/routes_device.py: the signed responses; Device/Nonce the
--                            nonce script, Device/Kv write_kv, read_kv and delete_kv, Device/Queue
--                            publish_message and consume_message; Device/Kv/Upload is the gate for
--                            catalogs, an argument of write_kv; Device/Authentication is about
--                            verify_device_request of dependencies.py.
--   Backup                   backend/src/services/backup_format.py: the envelope and its JSON form;
--                            Backup/Restore is apply_envelope of backend/src/services/backup_io.py.
--   Admin                    load_admin_acl and the require_admin functions of dependencies.py;
--                            Admin/Credentials is create_client, provision_device, update_acl and
--                            revoke_client of backend/src/api/routes_admin.py; Admin/Browse its
--                            listings, records, queues and ACL rows of admins.
--   Lint                     tools/stra2us_cli/catalog_lint.py: the rules for fields, themes, page
--                            texts and the asset bundle; Lint/Publication is lint_catalog.
--   Session                  backend/src/core/admin_auth.py: the session tokens of admins;
--                            Session/Passwords is the htpasswd file.
--   Gate                     backend/src/main.py: the paths that need an admin session; Gate/Origin the
--                            hosts and origins, Gate/Middleware admin_auth_middleware.
--   Catalog                  tools/stra2us_cli/catalog.py: coerce_value and kv_path; Catalog/Validation
--                            the validators of Var and Catalog.
--   Page                     backend/src/services: Page/Values is value_resolver.py, Page/Theme
--                            theme_serializer.py, Page/Blocks markdown_cache.py, Page/Widgets
--                            widget_renderer.py.
--   Oauth                    backend/src/core/oauth.py; Oauth/Routes is oauth_login and oauth_callback
--                            of backend/src/api/routes_oauth.py; Oauth/Browser says which cookies
--                            a browser sends back.
--   Fixtures, */Tests        concrete data and examples.
--
-- An HTTPException is `http status`, a BackupFormatError `http 400`, any other exception `fault`.
-- The clock, HMAC-SHA256, msgpack, json, urlparse and the random secrets are parameters, and so is the
-- Lua interpreter of Redis, with laws for the integers up to 2 ^ 53.
--
-- Loops on fuel: keystream_loop has 256 rounds, one more than the counter allows; consume_loop has
-- one round more than the stream has entries. The theorems below show that neither runs out. XREAD
-- sees one state of the stream for all the batches of a call.
--
-- KEYS is an argument of the handlers that list keys. The clock stands still during an admin request.
--
-- Not modelled: expiry of Redis keys by time, the activity log's entries, the parsing of
-- catalogs by PyYAML and pydantic, the collectors of a backup, the HTML of the sign-in pages and that
-- around the controls of the customer pages, the front end, the client SDK and the command-line
-- tools.
pub mod Prelude
pub mod Result
pub mod Exec
pub mod Builtins
pub mod Value
pub mod Redis
pub mod Acl
pub mod Security
pub mod Device
pub mod Backup
pub mod Admin
pub mod Lint
pub mod Session
pub mod Gate
pub mod Catalog
pub mod Page
pub mod Oauth
pub mod Fixtures
