-- ===== src/Lib.antt =====
-- CamAdmiral: a controller that finds IP cameras on the local network, relays their streams and
-- watches their health (the Python package camadmiral/ of this repository).
--
-- Parts and files. Prelude holds the shared names: tests, lists, dictionaries (Prelude/Dict), the
-- queries of tables (Prelude/Rows). Base64 and Bytes model what the program uses of Python's base64,
-- binascii, bytes and str; their round trip is in Base64/Roundtrip.
-- - Auth: camadmiral/auth.py. AdminAuthenticator is the record of its two dictionaries; authenticate
--   and record_failure are its methods, which return the decision and the new record. The times are
--   milliseconds. The lock that makes each step atomic is not modelled: a request is one step.
-- - Crypto: camadmiral/crypto.py with read_secret_file of camadmiral/config.py. Files is the state of
--   the file system that load_master_key meets; AES-GCM of the cryptography package is a parameter
--   (Aesgcm) with what its documentation promises (IsCipher).
-- - Inventory: camadmiral/inventory.py, over the dictionaries of Json. Inventory has the stable keys and
--   annotate_identity_conflicts, Inventory/Reconcile the matching of observations with known devices
--   and what becomes of the others, Inventory/Summary the functions that put these together.
-- - CameraIdentity: camadmiral/camera_identity.py, the device that a camera with a confirmed identity
--   resolves to.
-- - Media: camadmiral/media.py. Media has what go2rtc reports of a stream (_has_external_consumers,
--   _active_video_sample) and the cache of frames of RelayHealthMonitor, Media/Activity the
--   RelayRuntimeActivityMonitor, Media/Probing the cycle of RelayHealthMonitor (probe), whose
--   snapshots are in Media/Sampling and whose retries of credentials in Media/Authentication; the
--   answer of go2rtc, what the workers have and the clock are arguments.
-- - Supervisor: camadmiral/supervisor.py, one pass of the loop in main over the processes and the order
--   in which stop_children terminates them; what poll() says is an argument.
-- - Repository: the tables of camadmiral/storage.py, one list of rows each. Repository/Health and
--   Repository/Incidents are the health of a camera and its incidents with the notifications that
--   they queue, Repository/Probes what probe results write, Repository/Retries the retries of refused
--   credentials, Repository/Outbox the delivery of notifications, Repository/Revisions the revisions
--   of the media configuration, Repository/Frigate the Frigate targets with the selected cameras and
--   Repository/Frigate/Bindings what was written to them, Repository/Blocked the blocked devices. A probe result runs through Repository/Probes into
--   Repository/Incidents, which queues what Repository/Outbox hands to the messenger.
--
-- - Recovery: camadmiral/recovery.py. Recovery has the attempts and where a camera stands,
--   Recovery/Validation _validated_updates, Recovery/Planning the loop over the adoptions and
--   Recovery/Applying the try block, its handler and what follows, over an interface of the repository
--   and the relay (Services) whose calls may raise (Effects). Recovery/Store fills it with the tables
--   of camadmiral/storage.py, of which it has update_profile_sources and
--   enqueue_relay_restart_notification; the relay's answers are a parameter.
--
-- - Telegram: the settings of the bot in camadmiral/storage.py. Telegram/Polling has pairing_message of
--   camadmiral/notifications.py and _poll_telegram_pairing of camadmiral/app.py, which reads the updates
--   of the bot and pairs it with a chat; Telegram/Settings and Telegram/Pairing have the proofs.
--
-- Every function is total: loops are recursions on lists. The loop that evicts cached frames runs on
-- fuel, the number of frames: each round removes one, and no frames are within all bounds.
--
-- Not modelled: the rest of the HTTP application (camadmiral/app.py), discovery on the network
-- (camadmiral/discovery.py, camadmiral/onvif_client.py), the Frigate integration
-- (camadmiral/frigate.py, camadmiral/frigate_import.py), the tests and the end-to-end scenarios.
-- SQL is modelled by its effect on the rows, not as text; a transaction is one step.
pub mod Prelude
pub mod Base64
pub mod Bytes
pub mod Auth
pub mod Crypto
pub mod Json
pub mod Inventory
pub mod CameraIdentity
pub mod Media
pub mod Supervisor
pub mod Effects
pub mod Repository
pub mod Recovery
pub mod Telegram
