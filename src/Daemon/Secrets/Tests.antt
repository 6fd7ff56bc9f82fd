-- ===== src/Daemon/Secrets/Tests.antt =====
-- The theorem about linux-hello/src/daemon/secrets.py with a seal that puts a byte in front.
use text.Mathlib.Text.{◌==◌ as str_eq}
use linux_hello.Prelude.{◌≡◌, refl, true, false, some, [], ◌∷◌, arith, drop}
use linux_hello.Prelude.Bytes.{Bytes, same_bytes}
use linux_hello.Prelude.Dict.{Dict, insert, pop}
use linux_hello.Daemon.Secrets.{
  Sealing, temporary, can_seal, sealed_or_plain, store, load, starts_plain,
}
use linux_hello.Daemon.Secrets.Keeping.{Restores, load-store}

abbrev seal : Sealing
seal = record {
  has_tpm = true;
  has_creds = true;
  encrypt = λ user bs. some (1 ∷ bs);
  decrypt = λ user bs. some (drop 1 bs);
}

abbrev password : Bytes
password = 112 ∷ 119 ∷ []

seal-Restores : Restores seal "ann" password
unfolding starts_plain same_bytes
seal-Restores = record {
  decrypts = λ sealed e. cc e;
  marked = λ sealed e. let same : 1 ∷ password ≡ sealed = cc e in rw (← same) refl;
  fits = λ sealed e. let same : 1 ∷ password ≡ sealed = cc e in rw (← same) (omega arith);
}

load-store_example :
    (files' : Dict Bytes) × (store seal "ann" password [] ≡ some files')
    × (load seal "ann" files' ≡ some password)
    × (str_eq "ann" "bob" ≡ false
        → str_eq (temporary "ann") "bob" ≡ false
        → load seal "bob" files' ≡ load seal "bob" [])
load-store_example = load-store seal "ann" "bob" password [] refl (omega arith) seal-Restores

-- What was kept for a user called "ann.new" is lost.
new_is_lost :
    store seal "ann" password (("ann.new", 1 ∷ 7 ∷ []) ∷ []) ≡ some (("ann", 1 ∷ password) ∷ [])
unfolding store sealed_or_plain can_seal insert pop
new_is_lost = refl
