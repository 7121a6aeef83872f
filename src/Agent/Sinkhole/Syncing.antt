-- ===== src/Agent/Sinkhole/Syncing.antt =====
-- When the sinkhole is in place, and what keeps it from being synced.
use mathlib.Core.Path.{subst}
use silentguard_xdr.Agent.Sinkhole.{
  expand_hosts, strip_block, sorted_set, Sinkhole, write_hosts, sync, configured,
}
use silentguard_xdr.Server.NetMatch.{extract_host}
use silentguard_xdr.Prelude.{
  ℕ, ◌≡◌, refl, sym, ◌∙◌, ◌⊎◌, inl, inr, Bool, true, false, none, some, List, [], ◌∷◌, arith, ◌==◌,
  nat_eq, string_eq, option_eq, list_eq, beq_refl, eq_of_beq, Bool-cases, Option-cases, any,
}
use silentguard_xdr.Prelude.Text.{Text}

abbrev pub is_unreadable : Text → Bool
is_unreadable d = elim (extract_host d) [ none ↦ true | some h ↦ false ]

unreadable-configured : (ds : List Text) → any is_unreadable ds ≡ true → configured ds ≡ none
unfolding configured
unreadable-configured [] h = cc
unreadable-configured (d ∷ ds) h = elim (Option-cases (extract_host d)) [
  | inl unreadable ↦ rw (unreadable, configured) refl
  | inr (host, readable) ↦
      let fine : is_unreadable d ≡ false = rw (readable, is_unreadable) refl in
      let later : any is_unreadable ds ≡ true = ground (arith, h, fine) in
      rw (readable, configured) (rw (unreadable-configured ds later) refl)
]

module _ (now : ℕ) (dry_run writable : Bool) where
  pub sync-unreadable :
      (ds : List Text) (s : Sinkhole)
      → any is_unreadable ds ≡ true
      → sync now dry_run writable ds s ≡ none
  unfolding sync
  sync-unreadable ds s h = rw (unreadable-configured ds h, sync) refl

  -- `write_hosts` raises, changes nothing, or applies the domains
  write_outcome :
      (hosts domains : List Text) (s : Sinkhole)
      → let r = write_hosts now dry_run writable hosts domains s in
        (r ≡ none) ⊎ ((r ≡ some s) ⊎ ((t : Sinkhole) × (r ≡ some t) × (t.applied ≡ domains)))
  unfolding write_hosts
  write_outcome hosts domains s = elim (Bool-cases dry_run) [
    | inl dry ↦ rw (dry, write_hosts) (inr (inr (_, refl, refl)))
    | inr live ↦ elim (Option-cases s.hosts) [
      | inl closed ↦ simp (live, closed, write_hosts) (inr (inl refl))
      | inr (content, read) ↦ elim (Option-cases (strip_block content)) [
        | inl broken ↦ simp (live, read, broken, write_hosts) (inl refl)
        | inr (rest, stripped) ↦ elim (Bool-cases writable) [
          | inl writes ↦
              simp (live, read, stripped, writes, write_hosts) (inr (inr (_, refl, refl)))
          | inr fails ↦ simp (live, read, stripped, fails, write_hosts) (inr (inl refl))
        ]
      ]
    ]
  ]

  settled :
      (ds hosts : List Text) (s : Sinkhole)
      → configured ds ≡ some hosts
      → s.applied ≡ sorted_set (expand_hosts hosts)
      → sync now dry_run writable ds s ≡ some s
  unfolding sync
  settled ds hosts s named applied =
      rw (named, sync) (rw (applied, beq_refl (sorted_set (expand_hosts hosts))) refl)

  sync_outcome :
      (ds : List Text) (s : Sinkhole)
      → (sync now dry_run writable ds s ≡ none)
        ⊎ ((t : Sinkhole) × (sync now dry_run writable ds s ≡ some t)
            × (sync now dry_run writable ds t ≡ some t))
  unfolding sync
  sync_outcome ds s = elim (Option-cases (configured ds)) [
    | inl unreadable ↦ rw (unreadable, sync) (inl refl)
    | inr (hosts, named) ↦
        let domains = sorted_set (expand_hosts hosts) in
        elim (Bool-cases (domains == s.applied)) [
          | inl current ↦
              let stays = settled ds hosts s named (sym (eq_of_beq domains s.applied current)) in
              inr (s, stays, stays)
          | inr changed ↦
              let writes : sync now dry_run writable ds s
                  ≡ write_hosts now dry_run writable hosts domains s =
                simp (named, changed, sync) refl in
              elim (write_outcome hosts domains s) [
                | inl raised ↦ inl (writes ∙ raised)
                | inr (inl same) ↦ inr (s, writes ∙ same, writes ∙ same)
                | inr (inr (t, written, applied)) ↦
                    inr (t, writes ∙ written, settled ds hosts t named applied)
              ]
        ]
  ]

  -- A sync that ends without an error is stable: the next one with the same domains ends in the same way and
  -- changes nothing, whether the domains were applied, had been applied before, or could not be written.
  pub sync_settles :
      (ds : List Text) (s s' : Sinkhole)
      → sync now dry_run writable ds s ≡ some s'
      → sync now dry_run writable ds s' ≡ some s'
  sync_settles ds s s' h = elim (sync_outcome ds s) [
    | inl raised ↦ cc (h, raised)
    | inr (t, first, again) ↦
        let same : t ≡ s' = cc (first, h) in
        subst (λ x. sync now dry_run writable ds x ≡ some x) same again
  ]
