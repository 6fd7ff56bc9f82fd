-- ===== src/Pam/OwnStack.antt =====
-- The service file that face unlock has of its own (linux-hello/src/integration/pam.py).
pub mod Allowing
use linux_hello.Models.{codes}
use linux_hello.Prelude.{
  Bool, true, false, ◌&&◌, not, Option, none, some, List, [], ◌∷◌, ◌++◌, if◌then◌else◌,
}
use linux_hello.Prelude.Bytes.{same_bytes}
use linux_hello.Pam.Text.{Text, splitlines, concat, startswith, endswith, basename, elem}
use linux_hello.Pam.Lines.{pam_module, module_of, is_auth_line, is_some_of}
use linux_hello.Pam.Blocks.{newline, Result, ok, pam_error}

abbrev pub own_stack_line : Text
own_stack_line = codes "auth\t[success=ok default=die]\t" ++ pam_module ++ codes " no_password"

abbrev pub own_stack_drop : List Text
own_stack_drop = codes "pam_fprintd.so" ∷ codes "pam_permit.so" ∷ []

abbrev pub own_header_lines : List Text
own_header_lines =
    codes "#%PAM-1.0\n"
    ∷ codes "# Created by linux-hello: face unlock on the Plasma lock screen.\n"
    ∷ codes "# Removed again by 'linux-hello-cli reset-system'.\n"
    ∷ []

unfoldable pub close_line : Text → Text
unfolding endswith
close_line line = if endswith line newline then line else line ++ newline

abbrev pub is_kept_module : Option Text → Bool
is_kept_module none = false
is_kept_module (some m) = endswith m (codes ".so") && not (elem (basename m) own_stack_drop)

-- keep
unfoldable pub is_kept : Bool → Text → Bool
unfolding module_of same_bytes endswith basename elem
is_kept from_fingerprint line =
    from_fingerprint
    && is_some_of ((module_of line).0) (codes "auth")
    && is_kept_module ((module_of line).1)

-- The loop: the body from here on, and whether our line has been placed at its end.
unfoldable pub own_body : Bool → Bool → List Text → List Text × Bool
unfolding startswith
own_body from_fingerprint placed [] = ([], placed)
own_body from_fingerprint placed (l ∷ ls) =
    let line = close_line l in
    let rest = own_body from_fingerprint placed ls in
    let ours = own_body from_fingerprint true ls in
    if startswith line (codes "#%PAM")
    then rest
    else if is_auth_line line
    then (if is_kept from_fingerprint line
        then (line ∷ rest.0, rest.1)
        else if placed
        then rest
        else ((own_stack_line ++ newline) ∷ ours.0, ours.1))
    else (line ∷ rest.0, rest.1)

abbrev pub own_text : List Text × Bool → Result Text
own_text (body, true) = ok (concat (own_header_lines ++ body))
own_text (body, false) = pam_error

unfoldable pub build_own_stack : Text → Bool → Result Text
build_own_stack source_text from_fingerprint =
    own_text (own_body from_fingerprint false (splitlines source_text))
