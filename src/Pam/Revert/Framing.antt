-- ===== src/Pam/Revert/Framing.antt =====
-- The one file that `_revert` of linux-hello/src/integration/pam.py writes, but for the drop-in.
use linux_hello.Prelude.{
  ◌≡◌, ◌≢◌, refl, subst, Bool, false, ◌||◌, Option, none, some, List, is_empty, if_cases,
}
use linux_hello.Prelude.Bytes.{same_bytes, same_bytes_refl, same_bytes_differ}
use linux_hello.Prelude.Store.{lookup, lookup-store_other, lookup-erase_self, lookup-erase_other}
use linux_hello.Pam.Text.{Text, strip}
use linux_hello.Pam.Blocks.{remove_block}
use linux_hello.Pam.Files.{Files, autologin_file}
use linux_hello.Pam.Ini.{forget_main_autologin, user_of}
use linux_hello.Pam.Enable.{Entry, Action, Work, inserted, copied, created, has_any_block}
use linux_hello.Pam.Revert.{
  without_separator, is_untouched, removed, written, popped, is_whole, forgotten, revert_by,
  revert_rest, revert_partly, revert_text, revert_from, revert,
}

-- The file at `q` is as it was.
pub record Keeps (q : Text) (files : Files) (r : Work × Bool) : Type 0 where
  pub kept : lookup q r.0.files ≡ lookup q files

removed-Keeps : (path q : Text) (w : Work) → path ≢ q → Keeps q w.files (removed path w)
removed-Keeps path q w n = record { kept = lookup-erase_other path q w.files n }

written-Keeps : (path q text : Text) (w : Work) → path ≢ q → Keeps q w.files (written path text w)
written-Keeps path q text w n = record { kept = lookup-store_other path q text w.files n }

same-Keeps : (q : Text) (w : Work) (b : Bool) → Keeps q w.files (w, b)
same-Keeps q w b = record { kept = refl }

forgotten-same :
    (path text : Text) (files : Files) → path ≢ autologin_file → forgotten path text files ≡ files
forgotten-same path text files a = rw (same_bytes_differ path autologin_file a) refl

module _ (hash : Text → Text) where
  revert_by-Keeps :
      (action : Action) (path q text cleaned : Text) (entry : Entry) (w : Work)
      → path ≢ q
      → Keeps q w.files (revert_by hash action path text cleaned entry w)
  revert_by-Keeps created path q text cleaned entry w n =
      if_cases (Keeps q w.files) (is_untouched hash text entry || is_empty (strip cleaned)) _ _
        (λ e. removed-Keeps path q w n)
        (λ e.
          if_cases (Keeps q w.files) (same_bytes cleaned text) _ _ (λ e'. same-Keeps q w false)
            (λ e'. written-Keeps path q cleaned w n))
  revert_by-Keeps inserted path q text cleaned entry w n =
      if_cases (Keeps q w.files) (same_bytes cleaned text) _ _ (λ e. same-Keeps q w false)
        (λ e. written-Keeps path q (without_separator entry.separator cleaned) w n)
  revert_by-Keeps copied path q text cleaned entry w n =
      if_cases (Keeps q w.files) (same_bytes cleaned text) _ _ (λ e. same-Keeps q w false)
        (λ e.
          if_cases (Keeps q w.files) (is_untouched hash text entry) _ _
            (λ e'. removed-Keeps path q w n)
            (λ e'. written-Keeps path q (without_separator entry.separator cleaned) w n))

  revert_rest-Keeps :
      (path q text cleaned : Text) (o : Option Entry) (w : Work)
      → path ≢ q
      → Keeps q w.files (revert_rest hash path text cleaned o w)
  revert_rest-Keeps path q text cleaned none w n =
      if_cases (Keeps q w.files) (same_bytes cleaned text) _ _ (λ e. same-Keeps q w false)
        (λ e. written-Keeps path q cleaned w n)
  revert_rest-Keeps path q text cleaned (some entry) w n =
      revert_by-Keeps entry.action path q text cleaned entry w n

  revert_partly-Keeps :
      (path q text partly : Text) (w : Work)
      → path ≢ q
      → Keeps q w.files (revert_partly hash path text partly w)
  revert_partly-Keeps path q text partly w n =
      if_cases (Keeps q w.files) (same_bytes partly text) _ _ (λ e. same-Keeps q w false)
        (λ e. record { kept = lookup-store_other path q partly w.files n })

  revert_text-Keeps :
      (path q : Text) (begins : List Text) (text : Text) (w : Work)
      → path ≢ q
      → Keeps q w.files (revert_text hash path begins text w)
  revert_text-Keeps path q begins text w n =
      if_cases (Keeps q w.files) (is_whole path text) _ _
        (λ e. removed-Keeps path q (popped path w) n)
        (λ e.
          if_cases (Keeps q w.files) (has_any_block (remove_block text begins)) _ _
            (λ e'. revert_partly-Keeps path q text (remove_block text begins) w n)
            (λ e'.
              revert_rest-Keeps path q text (remove_block text begins) (lookup path w.state)
                (popped path w) n))

  revert_from-Keeps :
      (path q : Text) (begins : List Text) (w : Work) (o : Option Text)
      → path ≢ autologin_file
      → path ≢ q
      → Keeps q w.files (revert_from hash path begins w o)
  revert_from-Keeps path q begins w none a n = record { kept = refl }
  revert_from-Keeps path q begins w (some text) a n =
      subst (λ (f : Files). Keeps q f (revert_from hash path begins w (some text)))
        (forgotten-same path text w.files a)
        (revert_text-Keeps path q begins text
          (record { files = forgotten path text w.files; state = w.state }) n)

  pub revert-Keeps :
      (path q : Text) (begins : List Text) (w : Work)
      → path ≢ autologin_file
      → path ≢ q
      → Keeps q w.files (revert hash path begins w)
  unfolding revert
  revert-Keeps path q begins w a n = revert_from-Keeps path q begins w (lookup path w.files) a n

  -- The drop-in is gone, whatever was in it.
  pub revert-autologin :
      (begins : List Text) (w : Work)
      → lookup autologin_file (revert hash autologin_file begins w).0.files ≡ none
  unfolding revert
  revert-autologin begins w = from (lookup autologin_file w.files) refl
    where
      from :
          (o : Option Text)
          → lookup autologin_file w.files ≡ o
          → lookup autologin_file (revert_from hash autologin_file begins w o).0.files ≡ none
      from none e = e
      from (some text) e =
          rw (same_bytes_refl autologin_file)
            (lookup-erase_self autologin_file (forget_main_autologin w.files (user_of text)))
