-- ===== src/Daemon/Secrets.antt =====
-- The kept login password (linux-hello/src/daemon/secrets.py). The directory is a dictionary of files
-- with bytes, by users' names, which have no slash; systemd-creds is an argument, `none` where it
-- fails or takes too long. Failing system calls are not modelled.
pub mod Keeping
mod Tests
use Prim.Native.String.{String, ◌++◌ as str_append}
use linux_hello.Prelude.{
  ℕ, ◌*◌, Bool, true, false, ◌&&◌, ◌||◌, not, Option, none, some, List, [], ◌∷◌, ◌++◌, ltb, ◌==◌,
  if◌then◌else◌, is_empty, length, take, drop,
}
use linux_hello.Prelude.Bytes.{Bytes, same_bytes}
use linux_hello.Prelude.Dict.{Dict, get, insert, pop}

abbrev pub max_size : ℕ
max_size = 4096

-- b"plain\n"
abbrev pub plain : Bytes
plain = 112 ∷ 108 ∷ 97 ∷ 105 ∷ 110 ∷ 10 ∷ []

-- The first two are os.path.exists(TPM_DEVICE) and shutil.which("systemd-creds"); the credential's
-- name is given as the user's.
pub record Sealing : Type 0 where
  pub has_tpm : Bool
  pub has_creds : Bool
  pub encrypt : String → Bytes → Option Bytes
  pub decrypt : String → Bytes → Option Bytes

unfoldable pub can_seal : Sealing → Bool
can_seal y = y.has_tpm && y.has_creds

abbrev pub or_plain : Option Bytes → Bytes → Bytes
or_plain none secret = plain ++ secret
or_plain (some sealed) secret = sealed

-- What `store` writes.
unfoldable pub sealed_or_plain : Sealing → String → Bytes → Bytes
sealed_or_plain y user secret =
    if can_seal y then or_plain (y.encrypt user secret) secret else or_plain none secret

-- _path(user) + ".new", in the same directory.
abbrev pub temporary : String → String
temporary user = str_append user ".new"

-- The temporary file is cut to nothing, written and moved to its place: nothing stays under its own name.
-- `none` is SecretError.
unfoldable pub store : Sealing → String → Bytes → Dict Bytes → Option (Dict Bytes)
store y user secret files =
    if is_empty secret || ltb max_size (length secret)
    then none
    else some (insert user (sealed_or_plain y user secret) (pop (temporary user) files))

unfoldable pub starts_plain : Bytes → Bool
starts_plain bs = same_bytes (take 6 bs) plain

unfoldable pub unsealed : Sealing → String → Bytes → Option Bytes
unsealed y user bs =
    if starts_plain bs
    then some (drop 6 bs)
    else if not y.has_creds
    then none
    else y.decrypt user bs

abbrev pub load_file : Sealing → String → Option Bytes → Option Bytes
load_file y user none = none
load_file y user (some bs) = unsealed y user (take (max_size * 4) bs)

unfoldable pub load : Sealing → String → Dict Bytes → Option Bytes
load y user files = load_file y user (get user files)

unfoldable pub forget : String → Dict Bytes → Dict Bytes
forget user files = pop user files
