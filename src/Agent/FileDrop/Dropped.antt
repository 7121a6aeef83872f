-- ===== src/Agent/FileDrop/Dropped.antt =====
-- What becomes of a known-bad file that is dropped.
use mathlib.Core.Path.{subst}
use silentguard_xdr.Agent.Quarantine.Restore.{move_there, quarantine-moves}
use silentguard_xdr.Agent.FileDrop.{
  handle_new_file, scan_drops, verdict, handle_files, handle_digest, Reputation,
}
use silentguard_xdr.Server.Fleet.Telemetry.{TelemetryEvent}
use silentguard_xdr.Agent.Commands.{Options, Os, Endpoint}
use silentguard_xdr.Agent.Quarantine.{stored_name_of, stored_path, Files, move_file}
use silentguard_xdr.Prelude.{
  ℕ, suc, ◌+◌, ◌≡◌, refl, sym, ap, ◌∙◌, true, false, none, some, List, [], ◌∷◌, ◌++◌, arith, ◌==◌,
  nat_eq, string_eq, option_eq, list_eq, beq_refl, length, any,
}
use silentguard_xdr.Prelude.Table.{All}
use silentguard_xdr.Prelude.Text.{Text, codes}

moved_away :
    (src dest : Text) (files : Files) → (src == dest) ≡ false → move_file src dest files src ≡ none
unfolding move_file
moved_away src dest files apart = rw (apart, beq_refl src) refl

-- What a scan leaves where a known-bad file was dropped: the file is in the quarantine only, and one critical
-- event tells it.
abbrev pub Quarantined : Text → Text → Text → Endpoint → Endpoint → Type 0
Quarantined path dest content e e' =
    (e'.store.files path ≡ none)
    × (e'.store.files dest ≡ some content)
    × (ev : TelemetryEvent) × (e'.emitted ≡ e.emitted ++ ev ∷ [])
    × (ev.action ≡ "quarantined")
    × (ev.severity ≡ "critical")

module _ (now : ℕ) (os : Os) (o : Options) (rep : Reputation) where
  handle_digest-Quarantined :
      (fresh path content digest : Text) (e : Endpoint)
      → let dest = stored_path o.quarantine_dir (stored_name_of fresh) in
        verdict rep.allowlisted_hashes rep.known_bad_hashes (some digest) ≡ "known_bad"
        → o.dry_run ≡ false
        → e.store.files path ≡ some content
        → (path == dest) ≡ false
        → os.movable path dest ≡ true
        → Quarantined path dest content e (handle_digest now os o rep fresh path digest e)
  unfolding handle_digest
  handle_digest-Quarantined fresh path content digest e bad live there apart out =
      let dest = stored_path o.quarantine_dir (stored_name_of fresh) in
      let moves =
        quarantine-moves os.sha256_of os.movable o.quarantine_dir now fresh path (some digest)
          (codes "known-bad hash dropped on disk") content e.store there out in
      rw (bad, handle_digest)
        (rw live (
          rw moves (
            moved_away path dest e.store.files apart,
            move_there path dest e.store.files ∙ there,
            _,
            refl,
            refl,
            refl,
          )))

  handle_files-seen :
      (fresh : ℕ → Text) (n : ℕ) (seen xs zs : List Text) (e : Endpoint)
      → All (λ q. any (λ s. s == q) seen ≡ true) xs
      → handle_files now os o rep fresh n seen (xs ++ zs) e
        ≡ handle_files now os o rep fresh (n + length xs) seen zs e
  unfolding handle_files
  handle_files-seen fresh n seen [] zs e h =
      let same : n ≡ n + 0 = omega arith in
      ap (λ k. handle_files now os o rep fresh k seen zs e) same
  handle_files-seen fresh n seen (x ∷ xs) zs e (known, h) =
      let same : n + 1 + length xs ≡ n + suc (length xs) = omega arith in
      rw (known, handle_files)
        (handle_files-seen fresh (n + 1) seen xs zs e h
          ∙ ap (λ k. handle_files now os o rep fresh k seen zs e) same)

  no_new_file :
      (fresh : ℕ → Text) (n : ℕ) (seen ys : List Text) (e : Endpoint)
      → All (λ q. any (λ s. s == q) seen ≡ true) ys
      → handle_files now os o rep fresh n seen ys e ≡ e
  unfolding handle_files
  no_new_file fresh n seen [] e h = refl
  no_new_file fresh n seen (y ∷ ys) e (known, h) = rw known (no_new_file fresh (n + 1) seen ys e h)

  -- A scan that finds one new file among files it has seen, where the file has a known-bad hash and may be
  -- moved, leaves the file in the quarantine only, and reports exactly one event, which is critical.
  pub known_bad_drop :
      (fresh : ℕ → Text) (seen xs ys : List Text) (path content : Text) (e : Endpoint)
      → let dest = stored_path o.quarantine_dir (stored_name_of (fresh (length xs))) in
        All (λ q. any (λ s. s == q) seen ≡ true) xs
        → All (λ q. any (λ s. s == q) seen ≡ true) ys
        → any (λ s. s == path) seen ≡ false
        → verdict rep.allowlisted_hashes rep.known_bad_hashes (some (os.sha256_of content))
          ≡ "known_bad"
        → o.dry_run ≡ false
        → e.store.files path ≡ some content
        → (path == dest) ≡ false
        → os.movable path dest ≡ true
        → let (m', e') =
            scan_drops now os o rep fresh
              (xs ++ path ∷ ys)
              (record { seen = seen; baselined = true }, e) in
          Quarantined path dest content e e' × (m'.seen ≡ xs ++ path ∷ ys)
  unfolding scan_drops handle_files handle_new_file
  known_bad_drop fresh seen xs ys path content e old_xs old_ys new bad live there apart out =
      let dest = stored_path o.quarantine_dir (stored_name_of (fresh (length xs))) in
      let e' = handle_digest now os o rep (fresh (length xs)) path (os.sha256_of content) e in
      let here : handle_files now os o rep fresh (length xs) seen (path ∷ ys) e ≡ e' =
        rw (new, handle_files)
          (rw (there, handle_new_file) (no_new_file fresh (length xs + 1) seen ys e' old_ys)) in
      let from_zero : 0 + length xs ≡ length xs = omega arith in
      let whole =
        handle_files-seen fresh 0 seen xs (path ∷ ys) e old_xs
        ∙ ap (λ k. handle_files now os o rep fresh k seen (path ∷ ys) e) from_zero
        ∙ here in
      (
        subst (λ x. Quarantined path dest content e x) (sym whole)
            (handle_digest-Quarantined (fresh (length xs)) path content (os.sha256_of content) e bad
              live there apart out),
        refl,
      )
