-- ===== src/Pam/Revert/Sources.antt =====
-- The text that `_enable_insert` of linux-hello/src/integration/pam.py starts from, and what it puts into it.
use linux_hello.Prelude.{
  ◌≡◌, refl, ap, subst, inl, inr, Bool, true, false, Option, none, some, List, [], ◌∷◌,
  if◌then◌else◌, Bool-cases, All, All-append,
}
use linux_hello.Prelude.Store.{lookup}
use linux_hello.Pam.Text.{Text, elem}
use linux_hello.Pam.Lines.{gate_line}
use linux_hello.Pam.Blocks.{login_insert_line, insert_line, ok}
use linux_hello.Pam.Blocks.Gates.{IsCopy, IsOurLine}
use linux_hello.Pam.Files.{Files, etc_path, vendor_of, add_gate, gates_over, gates_of}
use linux_hello.Pam.Enable.{
  Action, inserted, copied, created, from_vendor, source_of, line_for, password_first_services,
}

add_gate-IsCopy :
    (gates : List Text) (l : Text) → All IsCopy gates → All IsCopy (add_gate (gate_line l) gates)
add_gate-IsCopy gates l h = added (gate_line l) refl
  where
    added : (o : Option Text) → gate_line l ≡ o → All IsCopy (add_gate o gates)
    added none e = h
    added (some g) e = elim (Bool-cases (elem g gates)) [
      | inl there ↦ rw there h
      | inr new ↦ rw new (All-append IsCopy gates (g ∷ []) h ((l, e), tt))
    ]

gates_over-IsCopy : (gates ls : List Text) → All IsCopy gates → All IsCopy (gates_over gates ls)
unfolding gates_over
gates_over-IsCopy gates [] h = h
gates_over-IsCopy gates (l ∷ ls) h =
    gates_over-IsCopy (add_gate (gate_line l) gates) ls (add_gate-IsCopy gates l h)

pub gates_of-IsCopy : (files : Files) (text : Text) → All IsCopy (gates_of files text)
unfolding gates_of
gates_of-IsCopy files text = gates_over-IsCopy [] _ tt

pub line_for-IsOurLine : (service : Text) → IsOurLine (line_for service)
line_for-IsOurLine service = ours (elem service password_first_services)
  where
    ours : (b : Bool) → IsOurLine (if b then login_insert_line else insert_line)
    ours true = inr refl
    ours false = inl refl

-- How the text came from the file at the path, or in place of a missing one.
abbrev pub IsSource : Action → Text → Option Text → Type 0
IsSource inserted text o = o ≡ some text
IsSource copied text o = o ≡ none
IsSource created text o = ⊥

pub source_of-IsSource :
    (files : Files) (service text : Text) (action : Action)
    → source_of files service ≡ ok (text, action)
    → IsSource action text (lookup (etc_path service) files)
unfolding source_of
source_of-IsSource files service text action = from (lookup (etc_path service) files)
  where
    from_copy :
        (v : Option Text) → from_vendor files v ≡ ok (text, action) → IsSource action text none
    from_copy none e = absurd (cc e)
    from_copy (some path) e =
        let same : copied ≡ action = cc e in subst (λ (a : Action). IsSource a text none) same refl

    from :
        (o : Option Text)
        → elim o [ some t ↦ ok (t, inserted) | none ↦ from_vendor files (vendor_of files service) ]
          ≡ ok (text, action)
        → IsSource action text o
    from none e = from_copy (vendor_of files service) e
    from (some t) e =
        let same : inserted ≡ action = cc e in
        let texts : t ≡ text = cc e in
        subst (λ (a : Action). IsSource a text (some t)) same (ap some texts)
