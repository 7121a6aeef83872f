-- ===== src/Agent/Commands/Ending.antt =====
-- The commands that end without an exception.
use mathlib.Core.Path.{subst}
use silentguard_xdr.Agent.Update.{bare_signature, Verdict}
use silentguard_xdr.Server.Models.{Fields}
use silentguard_xdr.Agent.Commands.{
  pid_raises, is_ascii, read_at, qid_of, is_sound_command, remote_scan, is_given, is_command,
  has_manifest, as_text, signature_raises, run_update, handle_command, Endpoint, restore_quarantine,
  kill_process, delete_file, Handled, Options, Os,
}
use silentguard_xdr.Prelude.{
  ℕ, String, ◌≡◌, refl, sym, inl, inr, Bool, true, false, not, ◌&&◌, List, [], arith, if◌then◌else◌,
  ◌==◌, nat_eq, string_eq, option_eq, list_eq, Bool-cases, Option-cases,
}
use silentguard_xdr.Prelude.Table.{update}
use silentguard_xdr.Prelude.Text.{Text}

module _ (now : ℕ) (os : Os) (o : Options) (cmd : Fields) where
  module _ (dumps : List (String × Text) → Text) (ed25519 : Text → Text → Text → Verdict)
      (hmac_sha256 : Text → Text → Text) where
    -- the signature of a sound update is read
    pub sound_signature :
        is_command "remote_update" cmd ≡ true
        → is_sound_command cmd ≡ true
        → signature_raises now dumps ed25519 hmac_sha256 os o.keys cmd ≡ false
    unfolding signature_raises
    sound_signature update sound = elim (Option-cases (read_at "signature" cmd)) [
      | inl bad ↦ absurd (ground (arith, update, sound, bad))
      | inr (t, read) ↦
          let ascii : is_ascii (bare_signature t) ≡ true = ground (arith, update, sound, read) in
          rw (read, signature_raises) (ground (arith, ascii))
    ]

  kill_ends :
      (e : Endpoint)
      → is_given (read_at "name" cmd) ≡ true
      → pid_raises cmd ≡ false
      → (kill_process now os o cmd e).1 ≡ true
  unfolding kill_process
  kill_ends e named_text takes = elim (Option-cases (read_at "name" cmd)) [
    | inl bad ↦ absurd (ground (arith, named_text, bad))
    | inr (name, read) ↦ rw (read, kill_process) (rw takes refl)
  ]

  module _ (writes : os.writable ≡ true) where
    saved :
        (saves : Bool) (bad good : Handled)
        → good.1 ≡ true
        → (if saves && not os.writable then bad else good).1 ≡ true
    saved saves bad good h =
        let quiet : (saves && not os.writable) ≡ false = ground (arith, writes) in
        subst (λ b. (if b then bad else good).1 ≡ true) (sym quiet) h

    delete_ends :
        (fresh : Text) (e : Endpoint)
        → is_given (read_at "path" cmd) ≡ true
        → (delete_file now os o fresh cmd e).1 ≡ true
    unfolding delete_file
    delete_ends fresh e text_path = elim (Option-cases (read_at "path" cmd)) [
      | inl bad ↦ absurd (ground (arith, text_path, bad))
      | inr (path, read) ↦ elim (Bool-cases (path == [])) [
        | inl no_path ↦ rw (read, delete_file) (rw no_path refl)
        | inr some_path ↦ rw (read, delete_file) (rw some_path (saved _ _ _ refl))
      ]
    ]

    restore_ends : (e : Endpoint) → (restore_quarantine now os o cmd e).1 ≡ true
    unfolding restore_quarantine
    restore_ends e = elim (Option-cases (as_text (qid_of now cmd))) [
      | inl odd ↦ rw (odd, restore_quarantine) refl
      | inr (t, read) ↦ rw (read, restore_quarantine) (saved _ _ _ refl)
    ]

    module _ (dumps : List (String × Text) → Text) (ed25519 : Text → Text → Text → Verdict)
        (hmac_sha256 : Text → Text → Text) where
      update_ends :
          (e : Endpoint)
          → signature_raises now dumps ed25519 hmac_sha256 os o.keys cmd ≡ false
          → (run_update now dumps ed25519 hmac_sha256 os o cmd e).1 ≡ true
      unfolding run_update
      update_ends e sound =
          let quiet : (has_manifest now dumps ed25519 hmac_sha256 cmd
                && signature_raises now dumps ed25519 hmac_sha256 os o.keys cmd)
              ≡ false =
            ground (arith, sound) in
          rw (quiet, run_update) (saved _ _ _ refl)

      -- A command with values of the types that its handler reads ends without an exception, also where the
      -- agent does not know it. The agent can write its own directory.
      pub sound_command_ends :
          (fresh : Text) (e : Endpoint)
          → is_sound_command cmd ≡ true
          → (handle_command now dumps ed25519 hmac_sha256 os o fresh cmd e).1 ≡ true
      unfolding handle_command remote_scan
      sound_command_ends fresh e sound = elim (Bool-cases (is_command "restore_quarantine" cmd)) [
        | inl a ↦ rw a (restore_ends e)
        | inr a ↦ elim (Bool-cases (is_command "kill_process" cmd)) [
          | inl b ↦ rw (a, b) (kill_ends e (ground (arith, b, sound)) (ground (arith, b, sound)))
          | inr b ↦ elim (Bool-cases (is_command "delete_file" cmd)) [
            | inl c ↦ rw (a, b, c) (delete_ends fresh e (ground (arith, c, sound)))
            | inr c ↦ elim (Bool-cases (is_command "remote_scan" cmd)) [
              | inl d ↦ rw (a, b, c, d) refl
              | inr d ↦ elim (Bool-cases (is_command "remote_update" cmd)) [
                | inl u ↦
                    rw (a, b, c, d, u)
                      (update_ends e (sound_signature dumps ed25519 hmac_sha256 u sound))
                | inr u ↦ rw (a, b, c, d, u) refl
              ]
            ]
          ]
        ]
      ]
