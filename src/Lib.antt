-- ===== src/Lib.antt =====
-- Linux Hello unlocks a desktop by face. A service on the system bus (linux-hello/src/daemon)
-- owns the camera, the face models and the rules on who may ask for a scan; a PAM module, the
-- lock screen and a settings page are its clients. A second service (linux-hello/src/webauthn)
-- presents a virtual USB security key to browsers through uhid: HID reports carry CTAPHID
-- messages, these carry CTAP commands to an authenticator, which asks the first service for a
-- face check before it makes or uses a passkey.
--
-- Parts and files (paths from the repository's root; functions keep the source's names, and a
-- method that is cut at a wait or at a branch has a name for each piece):
--
--   Prelude: shared names; Prelude/Tests: Boolean tests; Prelude/Lists: lists by native numbers
--     and dictionaries with number keys; Prelude/Dict: dictionaries with text keys;
--     Prelude/Bytes: byte strings; Prelude/Store: maps from texts, for files and the manifest;
--     Prelude/Int: integers over the native numbers.
--   Daemon/Results: VerificationResult of linux-hello/src/verification.py.
--   Daemon/Manager: the state of class Manager in linux-hello/src/daemon/manager.py,
--     _confirm_missed, _streak, cancel.
--   Daemon/Confirmed: verify_confirmed, as `request` (up to the wait for Enter) and `finish`
--     (from its end); Daemon/Confirmed/Overlap: what may run between the two;
--     Daemon/Confirmed/Pausing: pauses.
--   Daemon/Verify: verify and _wait_for_activity, as `start`, `activity_end` and `scan_end`;
--     Daemon/Verify/Pausing: the lock screen's streak.
--   Daemon/Enter: wait_for_enter of linux-hello/src/daemon/confirm.py, as rounds of what the
--     clock and the keyboards say; Daemon/Enter/Deciding: which answer the keys give.
--   Daemon/Access: linux-hello/src/daemon/access.py, over a record of what polkit, login1 and
--     the user database answer; Daemon/Access/Rules: whom they let pass.
--   Daemon/Secrets: linux-hello/src/daemon/secrets.py.
--   Daemon/Integration: set_target, remember_login_secret and login_secret of
--     linux-hello/src/daemon/manager.py, over Daemon/Access, Daemon/Secrets and Pam (Composing:
--     automatic login turned off; Failing: what an error leaves).
--   Engine: linux-hello/src/engine.py. Engine/Filter: DarkFilter and AmbientPairing (Dark,
--     Pairing: proofs); Engine/Frames: _frames, one turn of it as `next_frame` (Counting: its
--     counts); Engine/Verify and Engine/Enroll: verify and enroll as loops over rounds of what
--     the camera, the clock and the caller say (Ending, Matching, Capturing: proofs).
--   Pam: linux-hello/src/integration/pam.py. Pam/Text: the text operations of Python that it
--     uses (Splitting: lines and their concatenation); Pam/Lines: lines of a service file and
--     copies of checks; Pam/Blocks: marked blocks (Gates, Marks, Placing, Removing: proofs);
--     Pam/OwnStack: build_own_stack (Allowing: its auth lines); Pam/Files: paths, the files
--     that a service is found in, auth stacks with their includes; Pam/Ini: groups of INI files
--     and the user of the drop-in; Pam/Enable: the _enable methods (Framing: which file each
--     writes); Pam/Revert: _revert (Framing: which file it writes; Sources, Undoing: after
--     _enable_insert); Pam/Targets: _plan, enable and disable (Restoring: failed steps);
--     Pam/Reset: what is enabled, reset and refresh (Leaving: automatic login after reset).
--   Models: linux-hello/src/models.py; Models/Names: the user name pattern; Models/Keeping,
--     Models/Ids, Models/Operations, Models/Histories: the store under its operations.
--   Settings: linux-hello/src/settings.py (Layers: what the settings say after a change).
--   Webauthn/Codes, Webauthn/Frames, Webauthn/Ctaphid: linux-hello/src/webauthn/ctaphid.py,
--     class CtapHidDevice as a step function on reports (feed_report), with `keepalive` and
--     `run_cbor` for what the two threads do; its children hold the invariant, reassembly and
--     what happens while a command is in flight.
--   Webauthn/Store: linux-hello/src/webauthn/store.py, class CredentialStore, as a file that
--     processes share and what an object has read; Webauthn/Store/Counted and Counters: sign
--     counters; Webauthn/Store/Finding: find_for_rp.
--   Webauthn/Authenticator: linux-hello/src/webauthn/authenticator.py, class Authenticator;
--     Assertion and Registration below it: get_assertion and make_credential; Commands: the
--     table of handlers; Gate, Next and Counting: proofs.
--
-- Models, Daemon, Engine and Webauthn meet in three places: the engine's loops give the
-- VerificationResult that a scan of the service ends with, the authenticator's face check is a
-- VerificationResult, and the service asks the model store whether a user has models, which is
-- an argument of its steps.
--
-- Bounds and fuel: times are natural numbers, milliseconds in the daemon and seconds in the
-- authenticator, and `now - t < s` is written as `now < t + s`. Bytes are natural numbers, and
-- fields of a frame are packed only if they fit, as struct.pack requires. The loop that cuts a
-- message into continuation frames runs on fuel that is the length of the payload, and each
-- frame takes at least one byte of it. A dictionary is an association list. The camera loops of
-- the engine run over a list of rounds, one for each frame, and a loop that the rounds do not
-- end has no result; darkness is in thousandths of a percent and a distance is an integer. The
-- includes of a PAM stack are followed with a number of levels that is the source's limit.
--
-- Not modelled: D-Bus, polkit, login1, the file system's failures, modes and links, CBOR, JSON
-- and base64 encoding, hashes, signatures and keys (the keystore is an interface with a type of
-- signatures), pictures and face recognition, cameras, the command line, the PAM module and the
-- settings page in C++. What they answer is an argument of the step that reads it. The code of
-- linux-hello/src not named above is left to later work.
pub mod Prelude
pub mod Daemon
pub mod Engine
pub mod Models
pub mod Pam
pub mod Settings
pub mod Webauthn
