-- ===== src/Agent/Commands/Answers.antt =====
-- What the agent answers to a command, and what the server makes of the answer.
use silentguard_xdr.Agent.Commands.Ending.{sound_signature}
use mathlib.Core.Path.{subst}
use mathlib.Core.List.{append-nil}
use silentguard_xdr.Server.Models.{Json, Fields, get}
use silentguard_xdr.Server.Fleet.Telemetry.{TelemetryEvent}
use silentguard_xdr.Agent.Update.{Verdict}
use silentguard_xdr.Agent.Quarantine.{Entry}
use silentguard_xdr.Agent.Commands.{
  qid_of, is_sound_command, has_manifest, as_text, pid_raises, read_at, signature_raises, is_given,
  ended, Handled, is_handled, restore_result, delete_result, kill_all, targets, kill_result,
  result_event, Os, Endpoint, Options, is_command, report_result, kill_process, delete_file,
  remote_scan, restore_quarantine, run_update, handle_command, not_null,
}
use silentguard_xdr.Prelude.{
  ℕ, String, ◌≡◌, refl, sym, ap, ◌∙◌, inl, inr, Bool, true, false, not, ◌&&◌, Option, none, some,
  List, [], ◌∷◌, ◌++◌, arith, if◌then◌else◌, ◌==◌, nat_eq, string_eq, option_eq, list_eq,
  Bool-cases, Option-cases,
}
use silentguard_xdr.Prelude.Text.{Text, lower}

-- The command ended, and the events that it added end with one result for the action.
abbrev pub Answers : Json → Endpoint → Handled → Type 0
Answers id e (e', done) =
    (done ≡ true)
    × (before : List TelemetryEvent) × (result : TelemetryEvent) × (e'.emitted
        ≡ e.emitted ++ before ++ result ∷ [])
    × (result.source ≡ "response")
    × (result.action ≡ "result")
    × (get "action_id" result.details ≡ some id)

grown_one :
    (e e₁ : Endpoint) (x : TelemetryEvent)
    → e₁.emitted ≡ e.emitted
    → e₁.emitted ++ x ∷ [] ≡ e.emitted ++ x ∷ []
grown_one e e₁ x same = ap (λ l. l ++ x ∷ []) same

module _ (now : ℕ) where
  report-Answers :
      (id : Json) (status : String) (extra : Fields) (e e₁ : Endpoint)
      (before : List TelemetryEvent)
      → not_null id ≡ true
      → e₁.emitted ≡ e.emitted ++ before
      → Answers id e (ended (report_result now (some id) status extra e₁))
  unfolding report_result get
  report-Answers id status extra e e₁ before there grown =
      let result = result_event now id status extra in
      rw there (refl, before, result, rw grown refl, refl, refl, refl)

  module _ (os : Os) (o : Options) (cmd : Fields) (id : Json)
      (named : get "action_id" cmd ≡ some id) (there : not_null id ≡ true) where
    kill_cases :
        (name : Text) (killed : List ℕ) (error : Option String) (e : Endpoint)
        → Answers id e (ended (kill_result now cmd name (some id) killed error e))
    kill_cases name killed none e = report-Answers id _ _ e _ (_ ∷ []) there refl
    kill_cases name killed (some m) e = report-Answers id _ _ e _ (_ ∷ []) there refl

    delete_cases :
        (path : Text) (r : Option Entry) (e e₁ : Endpoint)
        → e₁.emitted ≡ e.emitted
        → Answers id e (ended (delete_result now path (some id) r e₁))
    delete_cases path none e e₁ same =
        report-Answers id _ _ e _ [] there (same ∙ sym (append-nil e.emitted))
    delete_cases path (some entry) e e₁ same =
        report-Answers id _ _ e _ (_ ∷ []) there (grown_one e e₁ _ same)

    restore_cases :
        (qid : Json) (r : Option Entry) (e e₁ : Endpoint)
        → e₁.emitted ≡ e.emitted
        → Answers id e (ended (restore_result now qid (some id) r e₁))
    restore_cases qid none e e₁ same =
        report-Answers id _ _ e _ (_ ∷ []) there (grown_one e e₁ _ same)
    restore_cases qid (some entry) e e₁ same =
        report-Answers id _ _ e _ (_ ∷ []) there (grown_one e e₁ _ same)

    scan-Answers : (e : Endpoint) → Answers id e (remote_scan now os cmd e)
    unfolding remote_scan
    scan-Answers e = rw named (report-Answers id _ _ e _ (_ ∷ []) there refl)

    kill-Answers :
        (e : Endpoint)
        → is_given (read_at "name" cmd) ≡ true
        → pid_raises cmd ≡ false
        → Answers id e (kill_process now os o cmd e)
    unfolding kill_process
    kill-Answers e named_text takes = elim (Option-cases (read_at "name" cmd)) [
      | inl bad ↦ absurd (ground (arith, named_text, bad))
      | inr (name, read) ↦
          let (ps, missing) = targets now os (get "pid" cmd) (lower name) in
          let (killed, error) = kill_all now os o.dry_run ps in
          rw (read, kill_process)
            (rw (takes, named)
              (kill_cases (lower name) killed (elim missing [ some m ↦ some m | none ↦ error ]) e))
    ]

    -- a step that raises only where the agent cannot write
    saved :
        (saves : Bool) (bad good : Handled) (e : Endpoint)
        → os.writable ≡ true
        → Answers id e good
        → Answers id e (if saves && not os.writable then bad else good)
    saved saves bad good e writes h =
        let quiet : (saves && not os.writable) ≡ false = ground (arith, writes) in
        subst (λ b. Answers id e (if b then bad else good)) (sym quiet) h

    module _ (writes : os.writable ≡ true) where
      delete-Answers :
          (fresh : Text) (e : Endpoint)
          → is_given (read_at "path" cmd) ≡ true
          → Answers id e (delete_file now os o fresh cmd e)
      unfolding delete_file
      delete-Answers fresh e text_path = elim (Option-cases (read_at "path" cmd)) [
        | inl bad ↦ absurd (ground (arith, text_path, bad))
        | inr (path, read) ↦ elim (Bool-cases (path == [])) [
          | inl no_path ↦
              rw (read, delete_file)
                (rw (no_path, named)
                  (report-Answers id _ _ e e [] there (sym (append-nil e.emitted))))
          | inr some_path ↦
              rw (read, delete_file)
                (rw (some_path, named) (saved _ _ _ e writes (delete_cases path _ e _ refl)))
        ]
      ]

      restore-Answers : (e : Endpoint) → Answers id e (restore_quarantine now os o cmd e)
      unfolding restore_quarantine
      restore-Answers e = elim (Option-cases (as_text (qid_of now cmd))) [
        | inl odd ↦
            rw (odd, restore_quarantine) (rw named (restore_cases (qid_of now cmd) none e e refl))
        | inr (t, read) ↦
            rw (read, restore_quarantine)
              (rw named (saved _ _ _ e writes (restore_cases (qid_of now cmd) _ e _ refl)))
      ]

      module _ (dumps : List (String × Text) → Text) (ed25519 : Text → Text → Text → Verdict)
          (hmac_sha256 : Text → Text → Text) where
        update-Answers :
            (e : Endpoint)
            → signature_raises now dumps ed25519 hmac_sha256 os o.keys cmd ≡ false
            → Answers id e (run_update now dumps ed25519 hmac_sha256 os o cmd e)
        unfolding run_update
        update-Answers e sound =
            let quiet : (has_manifest now dumps ed25519 hmac_sha256 cmd
                  && signature_raises now dumps ed25519 hmac_sha256 os o.keys cmd)
                ≡ false =
              ground (arith, sound) in
            rw (quiet, run_update)
              (rw named (saved _ _ _ e writes (report-Answers id _ _ e _ (_ ∷ []) there refl)))

        -- A command that the agent knows, with the key of an action and values of the types that its handler
        -- reads, ends without an exception and is answered by exactly one result, which names that key and is
        -- the last event that the command emits. The agent can write its own directory.
        pub handled_command-Answers :
            (fresh : Text) (e : Endpoint)
            → is_handled cmd ≡ true
            → is_sound_command cmd ≡ true
            → Answers id e (handle_command now dumps ed25519 hmac_sha256 os o fresh cmd e)
        unfolding handle_command
        handled_command-Answers fresh e known sound =
            elim (Bool-cases (is_command "restore_quarantine" cmd)) [
              | inl a ↦ rw a (restore-Answers e)
              | inr a ↦ elim (Bool-cases (is_command "kill_process" cmd)) [
                | inl b ↦
                    rw (a, b) (kill-Answers e (ground (arith, b, sound)) (ground (arith, b, sound)))
                | inr b ↦ elim (Bool-cases (is_command "delete_file" cmd)) [
                  | inl c ↦ rw (a, b, c) (delete-Answers fresh e (ground (arith, c, sound)))
                  | inr c ↦ elim (Bool-cases (is_command "remote_scan" cmd)) [
                    | inl d ↦ rw (a, b, c, d) (scan-Answers e)
                    | inr d ↦
                        let last : is_command "remote_update" cmd ≡ true =
                          ground (arith, known, a, b, c, d) in
                        rw (a, b, c, d, last)
                          (update-Answers e
                            (sound_signature now os o cmd dumps ed25519 hmac_sha256 last sound))
                  ]
                ]
              ]
            ]
