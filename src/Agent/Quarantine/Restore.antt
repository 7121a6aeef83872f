-- ===== src/Agent/Quarantine/Restore.antt =====
-- What a quarantined file is after its restoration.
use silentguard_xdr.Agent.Quarantine.{
  Entry, Files, Store, move_file, stored_name_of, stored_path, new_entry, quarantine, is_held,
  restored, mark_first, restore,
}
use silentguard_xdr.Prelude.{
  ℕ, ◌≡◌, refl, sym, ap, ◌∙◌, inl, inr, Bool, true, false, Option, none, some, List, [], ◌∷◌, ◌++◌,
  arith, ◌==◌, nat_eq, string_eq, option_eq, list_eq, beq_refl, eq_of_beq, Bool-cases,
}
use silentguard_xdr.Prelude.Table.{find}
use silentguard_xdr.Prelude.Text.{Text}

-- moving a file and moving it back leaves every other file, where nothing was at the second place
move_back :
    (src dest path : Text) (files : Files)
    → files dest ≡ none
    → (src == dest) ≡ false
    → move_file dest src (move_file src dest files) path ≡ files path
unfolding move_file
move_back src dest path files free apart =
    let whole : (dest == dest) ≡ true = beq_refl dest in
    elim (Bool-cases (path == src)) [
      | inl back ↦ rw (back, whole) (ap files (sym (eq_of_beq path src back)))
      | inr other ↦ elim (Bool-cases (path == dest)) [
        | inl held ↦ rw (other, held) (sym free ∙ ap files (sym (eq_of_beq path dest held)))
        | inr free_path ↦ rw (other, free_path) refl
      ]
    ]

find-append_one :
    (p : Entry → Bool) (es : List Entry) (e : Entry)
    → find p es ≡ none
    → p e ≡ true
    → find p (es ++ e ∷ []) ≡ some e
find-append_one p [] e absent h = ground (arith, h)
find-append_one p (x ∷ es) e absent h = ground (arith, absent, find-append_one p es e)

pub move_there : (src dest : Text) (files : Files) → move_file src dest files dest ≡ files src
unfolding move_file
move_there src dest files = rw (beq_refl dest) refl

module _ (sha256_of : Text → Text) (movable : Text → Text → Bool) (dir : Text) where
  pub quarantine-moves :
      (now : ℕ) (id path : Text) (sha256 : Option Text) (reason content : Text) (s : Store)
      → s.files path ≡ some content
      → movable path (stored_path dir (stored_name_of id)) ≡ true
      → let entry = new_entry sha256_of movable dir false now id path sha256 reason s.files in
        quarantine sha256_of movable dir false now id path sha256 reason s ≡ (
          some entry,
          record {
            files = move_file path (stored_path dir (stored_name_of id)) s.files;
            manifest = s.manifest ++ entry ∷ [];
          },
        )
  unfolding quarantine
  quarantine-moves now id path sha256 reason content s there out = rw (there, out) refl

  mark_first-append_one :
      (p : Entry → Bool) (f : Entry → Entry) (es : List Entry) (e : Entry)
      → find p es ≡ none
      → p e ≡ true
      → mark_first sha256_of movable dir false p f (es ++ e ∷ []) ≡ es ++ f e ∷ []
  mark_first-append_one p f [] e absent h = rw h refl
  mark_first-append_one p f (x ∷ es) e absent h = elim (Bool-cases (p x)) [
    | inl hit ↦ absurd (ground (arith, hit, absent))
    | inr miss ↦
        rw miss
          (ap (λ rest. x ∷ rest) (mark_first-append_one p f es e (ground (arith, miss, absent)) h))
  ]

  restore-moves :
      (now : ℕ) (id content : Text) (s : Store) (e : Entry)
      → find (is_held sha256_of movable dir false id) s.manifest ≡ some e
      → s.files (stored_path dir e.stored_name) ≡ some content
      → movable (stored_path dir e.stored_name) e.original_path ≡ true
      → restore sha256_of movable dir false now id s ≡ (
        some (restored sha256_of movable dir false now e),
        record {
          files = move_file (stored_path dir e.stored_name) e.original_path s.files;
          manifest =
              mark_first sha256_of movable dir false
                (is_held sha256_of movable dir false id)
                (restored sha256_of movable dir false now)
                s.manifest;
        },
      )
  unfolding restore
  restore-moves now id content s e found held back = rw (found, restore) (rw (held, back) refl)

  -- A file that was quarantined and is restored stands where it stood, with its contents; every other file is
  -- as before, and the manifest has one entry more, which is marked as restored. The file is there, the moves are allowed, the id
  -- is new, and nothing has the name that the quarantine gives.
  pub restore-quarantine :
      (now later : ℕ) (id path : Text) (sha256 : Option Text) (reason content : Text) (s : Store)
      → let dest = stored_path dir (stored_name_of id) in
        s.files path ≡ some content
        → s.files dest ≡ none
        → (path == dest) ≡ false
        → movable path dest ≡ true
        → movable dest path ≡ true
        → find (is_held sha256_of movable dir false id) s.manifest ≡ none
        → let (r, s₁) = quarantine sha256_of movable dir false now id path sha256 reason s in
          let (r', s₂) = restore sha256_of movable dir false later id s₁ in
          let entry = new_entry sha256_of movable dir false now id path sha256 reason s.files in
          (r ≡ some entry)
          × (r' ≡ some (restored sha256_of movable dir false later entry))
          × (s₂.manifest ≡ s.manifest ++ restored sha256_of movable dir false later entry ∷ [])
          × ((p : Text) → s₂.files p ≡ s.files p)
  restore-quarantine now later id path sha256 reason content s there free apart out back new =
      let dest = stored_path dir (stored_name_of id) in
      let entry = new_entry sha256_of movable dir false now id path sha256 reason s.files in
      let is_ours : is_held sha256_of movable dir false id entry ≡ true = rw (beq_refl id) refl in
      let after : Store = record {
        files = move_file path dest s.files;
        manifest = s.manifest ++ entry ∷ [];
      } in
      let found =
        find-append_one (is_held sha256_of movable dir false id) s.manifest entry new is_ours in
      let first = quarantine-moves now id path sha256 reason content s there out in
      let second =
        restore-moves later id content after entry found (move_there path dest s.files ∙ there)
          back in
      let marked =
        mark_first-append_one (is_held sha256_of movable dir false id)
          (restored sha256_of movable dir false later) s.manifest entry new is_ours in
      rw first (rw second (refl, refl, marked, λ p. move_back path dest p s.files free apart))
