-- ===== src/Daemon/Secrets/Keeping.antt =====
-- `store` against `load` of linux-hello/src/daemon/secrets.py.
use Prim.Native.String.{String}
use text.Mathlib.Text.{◌==◌ as str_eq}
use linux_hello.Prelude.{
  ◌*◌, ◌≤◌, ◌≡◌, refl, inl, inr, true, false, ◌&&◌, some, ◌++◌, arith, is_empty, length, take-all,
  Bool-cases, Option-cases,
}
use linux_hello.Prelude.Bytes.{Bytes, same_bytes}
use linux_hello.Prelude.Dict.{Dict, insert, pop, get-insert, get-insert_self, get-pop}
use linux_hello.Daemon.Secrets.{
  max_size, plain, Sealing, can_seal, sealed_or_plain, temporary, store, starts_plain, unsealed,
  load_file, load,
}

-- What systemd-creds promises: what it encrypts it decrypts, and its Base64 text is neither marked as
-- plain nor longer than what is read.
pub record Restores (y : Sealing) (user : String) (secret : Bytes) : Type 0 where
  pub decrypts :
      (sealed : Bytes) → y.encrypt user secret ≡ some sealed → y.decrypt user sealed ≡ some secret
  pub marked : (sealed : Bytes) → y.encrypt user secret ≡ some sealed → starts_plain sealed ≡ false
  pub fits : (sealed : Bytes) → y.encrypt user secret ≡ some sealed → length sealed ≤ max_size * 4

plain-unsealed :
    (y : Sealing) (user : String) (secret : Bytes) → unsealed y user (plain ++ secret) ≡ some secret
unfolding unsealed starts_plain same_bytes
plain-unsealed y user secret = refl

plain-load :
    (y : Sealing) (user : String) (secret : Bytes)
    → length secret ≤ max_size
    → load_file y user (some (plain ++ secret)) ≡ some secret
plain-load y user secret h =
    rw (take-all (max_size * 4) (plain ++ secret) (omega (arith, h))) (plain-unsealed y user secret)

sealed-load :
    (y : Sealing) (user : String) (secret sealed : Bytes)
    → y.has_creds ≡ true
    → Restores y user secret
    → y.encrypt user secret ≡ some sealed
    → load_file y user (some sealed) ≡ some secret
unfolding unsealed
sealed-load y user secret sealed c r e =
    rw (take-all (max_size * 4) sealed (r.fits sealed e))
      (rw (r.marked sealed e, c) (r.decrypts sealed e))

sealed_or_plain-load :
    (y : Sealing) (user : String) (secret : Bytes)
    → length secret ≤ max_size
    → Restores y user secret
    → load_file y user (some (sealed_or_plain y user secret)) ≡ some secret
unfolding sealed_or_plain can_seal
sealed_or_plain-load y user secret h r = elim (Bool-cases (y.has_tpm && y.has_creds)) [
  | inr cannot ↦ rw cannot (plain-load y user secret h)
  | inl can ↦ elim (Option-cases (y.encrypt user secret)) [
    | inl failed ↦ rw (can, failed) (plain-load y user secret h)
    | inr (sealed, e) ↦ rw (can, e) (sealed-load y user secret sealed (ground arith) r e)
  ]
]

-- A password of 1 to 4096 bytes is kept, and loading gives it back, sealed or not, if what systemd-creds encrypts of
-- it comes back from decrypting, is not marked as plain and is not longer than what is read (Restores). What
-- is loaded for another user is as before, but for one whose name is this user's followed by ".new".
pub load-store :
    (y : Sealing) (user v : String) (secret : Bytes) (files : Dict Bytes)
    → is_empty secret ≡ false
    → length secret ≤ max_size
    → Restores y user secret
    → (files' : Dict Bytes) × (store y user secret files ≡ some files')
      × (load y user files' ≡ some secret)
      × (str_eq user v ≡ false
          → str_eq (temporary user) v ≡ false
          → load y v files' ≡ load y v files)
unfolding store load
load-store y user v secret files e h r =
    let others = pop (temporary user) files in
    (
      insert user (sealed_or_plain y user secret) others,
      rw e (ground (arith, h)),
      rw (get-insert_self user (sealed_or_plain y user secret) others)
          (sealed_or_plain-load y user secret h r),
      λ other unused. rw get-insert (rw other (rw get-pop (rw unused refl))),
    )
