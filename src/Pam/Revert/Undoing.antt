-- ===== src/Pam/Revert/Undoing.antt =====
-- `_revert` after `_enable_insert` of linux-hello/src/integration/pam.py.
use linux_hello.Prelude.{
  ◌≡◌, ◌||◌, ◌≢◌, refl, sym, ap, subst, ◌∙◌, inl, inr, Bool, true, false, Option, none, some, [],
  ◌∷◌, Bool-cases, All,
}
use linux_hello.Prelude.Bytes.{
  same_bytes, same_bytes_sound, same_bytes_refl, same_bytes_apart, same_bytes_differ,
}
use linux_hello.Prelude.Store.{
  Store, lookup, store, erase, lookup-store_self, lookup-store_other, lookup-erase_self,
  lookup-erase_other,
}
use linux_hello.Pam.Text.{Text, splitlines, concat, startswith, elem}
use linux_hello.Pam.Text.Splitting.{IsClosed, concat-splitlines}
use linux_hello.Pam.Blocks.{
  wallet_begin, begin_mark, Result, ok, pam_error, has_block, insert_block, remove_block,
}
use linux_hello.Pam.Blocks.Marks.{IsAbsent, absent-outside}
use linux_hello.Pam.Blocks.Removing.{outside-same, remove_block-insert_block, insert_block-differs}
use linux_hello.Pam.Files.{Files, is_file, etc_path, autologin_file, gates_of}
use linux_hello.Pam.Enable.{
  Entry, Action, inserted, copied, created, Work, own_header, has_any_block, action_of, action_for,
  is_own_at, source_of, line_for, write_entry, write_changed, insert_into, enable_insert,
}
use linux_hello.Pam.Revert.{revert, revert_from, revert_rest, without_separator, popped}
use linux_hello.Pam.Revert.Sources.{
  gates_of-IsCopy, line_for-IsOurLine, IsSource, source_of-IsSource,
}

-- A service file without any of our marks, and with a newline at its end.
pub record IsPlain (text : Text) : Type 0 where
  pub closed : IsClosed text
  pub free : has_any_block text ≡ false

plain-IsAbsent : (text : Text) → IsPlain text → All (IsAbsent text) (begin_mark ∷ [])
plain-IsAbsent text p =
    ((λ e. cc e, left (has_block text begin_mark) (has_block text wallet_begin) p.free), tt)
  where
    left : (a b : Bool) → a || b ≡ false → a ≡ false
    left true b h = absurd (cc h)
    left false b h = refl

plain-same : (text : Text) → IsPlain text → remove_block text (begin_mark ∷ []) ≡ text
unfolding remove_block
plain-same text p =
    ap concat (
      outside-same (begin_mark ∷ []) (splitlines text)
        (absent-outside text (begin_mark ∷ []) (plain-IsAbsent text p)))
    ∙ concat-splitlines text

begin_marks : elem begin_mark (begin_mark ∷ []) ≡ true
unfolding elem same_bytes
begin_marks = refl

module _ (hash : Text → Text) where
  -- The work after the new text has been written.
  abbrev entered : Text → Text → Text → Action → Work → Work
  entered path target new action w = record {
    files = store path new w.files;
    state =
        store path (record { action = action; target = target; sha256 = hash new; separator = [] })
          w.state;
  }

  -- Reverting it.
  abbrev IsUndone : Text → Work → Work → Type 0
  IsUndone path w u =
      ((q : Text) → lookup q u.files ≡ lookup q w.files) × (lookup path u.state ≡ none)

  put_over :
      (path new text : Text) (files : Files)
      → lookup path files ≡ some text
      → (q : Text) → lookup q (store path text (store path new files)) ≡ lookup q files
  put_over path new text files h q = elim (Bool-cases (same_bytes path q)) [
    | inl same ↦
        subst (λ (x : Text). lookup x (store path text (store path new files)) ≡ lookup x files)
          (same_bytes_sound path q same)
          (lookup-store_self path text (store path new files) ∙ sym h)
    | inr other ↦
        let n : path ≢ q = same_bytes_apart path q other in
        lookup-store_other path q text (store path new files) n
        ∙ lookup-store_other path q new files n
  ]

  taken_out :
      (path new : Text) (files : Files)
      → lookup path files ≡ none
      → (q : Text) → lookup q (erase path (store path new files)) ≡ lookup q files
  taken_out path new files h q = elim (Bool-cases (same_bytes path q)) [
    | inl same ↦
        subst (λ (x : Text). lookup x (erase path (store path new files)) ≡ lookup x files)
          (same_bytes_sound path q same) (lookup-erase_self path (store path new files) ∙ sym h)
    | inr other ↦
        let n : path ≢ q = same_bytes_apart path q other in
        lookup-erase_other path q (store path new files) n ∙ lookup-store_other path q new files n
  ]

  -- The branch that a file with our block alone takes.
  revert_text-rest :
      (path text new : Text) (w : Work)
      → path ≢ autologin_file
      → startswith new own_header ≡ false
      → remove_block new (begin_mark ∷ []) ≡ text
      → has_any_block text ≡ false
      → revert_from hash path (begin_mark ∷ []) w (some new)
        ≡ revert_rest hash path new text (lookup path w.state) (popped path w)
  revert_text-rest path text new w n head back free =
      rw (same_bytes_differ path autologin_file n, head, back, free) refl

  revert-branch :
      (path target text new : Text) (action : Action) (w : Work)
      → path ≢ autologin_file
      → startswith new own_header ≡ false
      → remove_block new (begin_mark ∷ []) ≡ text
      → has_any_block text ≡ false
      → revert hash path (begin_mark ∷ []) (entered path target new action w)
        ≡ revert_rest hash path new text
            (some (record { action = action; target = target; sha256 = hash new; separator = [] }))
            (popped path (entered path target new action w))
  unfolding revert
  revert-branch path target text new action w n head back free =
      let e = entered path target new action w in
      ap (revert_from hash path (begin_mark ∷ []) e) (lookup-store_self path new w.files)
      ∙ revert_text-rest path text new e n head back free
      ∙ ap (λ x. revert_rest hash path new text x (popped path e))
          (lookup-store_self path
            (record { action = action; target = target; sha256 = hash new; separator = [] })
            w.state)

  revert_rest-IsUndone :
      (path target text new : Text) (action : Action) (w : Work)
      → IsSource action text (lookup path w.files)
      → new ≢ text
      → IsUndone path w
          (revert_rest hash path new text
            (some (record { action = action; target = target; sha256 = hash new; separator = [] }))
            (popped path (entered path target new action w))).0
  unfolding without_separator
  revert_rest-IsUndone path target text new inserted w s changed =
      rw (same_bytes_differ text new (λ e. changed (sym e)))
        (put_over path new text w.files s, lookup-erase_self path _)
  revert_rest-IsUndone path target text new copied w s changed =
      rw (same_bytes_differ text new (λ e. changed (sym e)), same_bytes_refl (hash new))
        (taken_out path new w.files s, lookup-erase_self path _)
  revert_rest-IsUndone path target text new created w s changed = absurd s

  action_for-same :
      (path text : Text) (action : Action) (state : Store Entry)
      → has_any_block text ≡ false
      → action_for path text action state ≡ action
  unfolding action_for
  action_for-same path text action state h = of (lookup path state)
    where
      of : (o : Option Entry) → action_of o (has_any_block text) action ≡ action
      of none = refl
      of (some entry) = rw h refl

  write_changed-entered :
      (path target text new : Text) (action : Action) (w : Work)
      → has_any_block text ≡ false
      → new ≢ text
      → write_changed hash path target text action [] (ok new) w
        ≡ ok (entered path target new action w)
  unfolding write_changed write_entry
  write_changed-entered path target text new action w free changed =
      rw (same_bytes_differ new text changed, action_for-same path text action w.state free) refl

  own_at-entered :
      (path target new : Text) (action : Action) (w : Work)
      → is_own_at (entered path target new action w).files path ≡ false
      → startswith new own_header ≡ false
  unfolding is_file
  own_at-entered path target new action w h = rw (lookup-store_self path new w.files) at h

  -- A service's file, or the vendor's, that ends with a newline and has none of our marks: where `enable_insert`
  -- puts our block into it, so that what it writes does not begin with the header of our own files, and the path
  -- is not the drop-in's, `revert` brings every file back to what it was before (the service's file to its text,
  -- or to its absence when the text was the vendor's) and leaves no manifest entry for it.
  pub revert-enable_insert :
      (service target text : Text) (action : Action) (w w' : Work)
      → source_of w.files service ≡ ok (text, action)
      → IsPlain text
      → etc_path service ≢ autologin_file
      → enable_insert hash service target w ≡ ok w'
      → is_own_at w'.files (etc_path service) ≡ false
      → ((q : Text)
          → lookup q (revert hash (etc_path service) (begin_mark ∷ []) w').0.files
            ≡ lookup q w.files)
        × (lookup (etc_path service) (revert hash (etc_path service) (begin_mark ∷ []) w').0.state
            ≡ none)
  unfolding enable_insert
  revert-enable_insert service target text action w w' s p n e own =
      let path = etc_path service in
      let gates = gates_of w.files text in
      let write = λ (r : Result Text). write_changed hash path target text action [] r w in
      let made : write (insert_block text gates (line_for service)) ≡ ok w' =
        ap (λ x. write (insert_block x gates (line_for service))) (sym (plain-same text p))
        ∙ ap (insert_into hash service target w) (sym s)
        ∙ e in
      undone (insert_block text gates (line_for service)) refl made
    where
      undone :
          (r : Result Text)
          → insert_block text (gates_of w.files text) (line_for service) ≡ r
          → write_changed hash (etc_path service) target text action [] r w ≡ ok w'
          → IsUndone (etc_path service) w (revert hash (etc_path service) (begin_mark ∷ []) w').0
      undone pam_error i m = absurd (cc m)
      undone (ok new) i m =
          let path = etc_path service in
          let gates = gates_of-IsCopy w.files text in
          let line = line_for-IsOurLine service in
          let changed =
            insert_block-differs (gates_of w.files text) (line_for service) text new p.closed
              (plain-IsAbsent text p).0.1 gates line i in
          let back =
            remove_block-insert_block (begin_mark ∷ []) (gates_of w.files text) (line_for service)
              text new p.closed begin_marks (plain-IsAbsent text p) gates line i in
          let same : ok (entered path target new action w) ≡ ok w' =
            sym (write_changed-entered path target text new action w p.free changed) ∙ m in
          let equal : entered path target new action w ≡ w' = cc same in
          let head =
            own_at-entered path target new action w
              (subst (λ (x : Work). is_own_at x.files path ≡ false) (sym equal) own) in
          subst (λ (x : Work). IsUndone path w (revert hash path (begin_mark ∷ []) x).0) equal
            (subst (λ (x : Work × Bool). IsUndone path w x.0)
              (sym (revert-branch path target text new action w n head back p.free))
              (revert_rest-IsUndone path target text new action w
                (source_of-IsSource w.files service text action s) changed))
