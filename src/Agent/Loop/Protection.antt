-- ===== src/Agent/Loop/Protection.antt =====
-- What an answer of the server cannot undo, and what it decides.
use silentguard_xdr.Agent.Commands.Ending.{sound_command_ends}
use silentguard_xdr.Server.Models.{Fields, Json}
use silentguard_xdr.Server.Fleet.{CheckinResponse}
use silentguard_xdr.Agent.Update.{Verdict}
use silentguard_xdr.Agent.Commands.{
  handle_command, is_sound_command, is_container, Os, Endpoint, Options, isolate, release,
}
use silentguard_xdr.Agent.Loop.{
  merge_blocklist, handle_all, apply_processes, apply_ports, apply_domains, apply_dirs,
  apply_answer, values_at, setting, elements_of, element_of, update_set, update_from, apply_policy,
  ports_of, listed, Config, insert, insert_all, set_network, apply_checkin,
}
use silentguard_xdr.Prelude.{
  ℕ, ◌+◌, String, ◌≡◌, refl, sym, ap, ◌∙◌, inl, inr, Bool, true, false, ◌||◌, Option, none, some,
  List, [], ◌∷◌, arith, Equality, ◌==◌, nat_eq, string_eq, option_eq, list_eq, eq_of_beq,
  Bool-cases, any, all, any-append,
}
use silentguard_xdr.Prelude.Text.{Text}

-- adding to a list adds to the set that it stands for
module _ {A : Type 0} ⦃eq : Equality A⦄ where
  holds_there :
      (p : A → Bool) (x : A) (ys : List A)
      → any (λ y. y == x) ys ≡ true
      → (p x || any p ys) ≡ any p ys
  holds_there p x [] h = cc
  holds_there p x (y ∷ ys) h = elim (Bool-cases (y == x)) [
    | inl same ↦ ground (arith, ap p (eq_of_beq y x same))
    | inr other ↦ let rest = holds_there p x ys (ground (arith, h, other)) in ground (arith, rest)
  ]

  any-insert : (p : A → Bool) (x : A) (ys : List A) → any p (insert x ys) ≡ (p x || any p ys)
  any-insert p x ys = elim (Bool-cases (any (λ y. y == x) ys)) [
    | inl there ↦ rw there (sym (holds_there p x ys there))
    | inr absent ↦ rw (absent, any-append p ys (x ∷ [])) (ground (arith))
  ]

  any-insert_all :
      (p : A → Bool) (xs ys : List A) → any p (insert_all xs ys) ≡ (any p xs || any p ys)
  any-insert_all p [] ys = refl
  any-insert_all p (x ∷ xs) ys =
      ground (arith, any-insert_all p xs (insert x ys), any-insert p x ys)

module _ (shown : Json → Text) where
  -- an update of a set keeps what is in it
  update_set-keeps :
      (p : Text → Bool) (vs : List Json) (ys : List Text)
      → any p ys ≡ true
      → any p (update_set shown vs ys).0 ≡ true
  update_set-keeps p [] ys h = h
  update_set-keeps p (v ∷ vs) ys h = elim (Bool-cases (is_container v)) [
    | inl bad ↦ rw (update_set, bad) h
    | inr fine ↦
        let more : any p (insert (element_of shown v) ys) ≡ true =
          any-insert p (element_of shown v) ys ∙ ground (arith, h) in
        rw (update_set, fine) (update_set-keeps p vs (insert (element_of shown v) ys) more)
  ]

  update_from-keeps :
      (p : Text → Bool) (o : Option (List Json)) (ys : List Text)
      → any p ys ≡ true
      → any p (update_from shown o ys).0 ≡ true
  update_from-keeps p none ys h = h
  update_from-keeps p (some vs) ys h = update_set-keeps p vs ys h

  -- a policy unblocks no domain, also where it raises
  apply_dirs-domains :
      (policy : Fields) (o : Option (List Json)) (c : Config)
      → (apply_dirs shown policy o c).0.blocked_domains ≡ c.blocked_domains
  apply_dirs-domains policy none c = refl
  apply_dirs-domains policy (some vs) c = refl

  apply_domains-domains :
      (policy : Fields) (r : List Text × Bool) (c : Config)
      → (apply_domains shown policy r c).0.blocked_domains ≡ r.0
  apply_domains-domains policy (domains, false) c = refl
  apply_domains-domains policy (domains, true) c =
      apply_dirs-domains policy (setting "file_drop_dirs" policy)
        (record c { blocked_domains = domains })

  apply_processes-keeps :
      (d : Text → Bool) (policy : Fields) (r : List Text × Bool) (c : Config)
      → any d c.blocked_domains ≡ true
      → any d (apply_processes shown policy r c).0.blocked_domains ≡ true
  apply_processes-keeps d policy (processes, false) c h = h
  apply_processes-keeps d policy (processes, true) c h =
      let r = update_from shown (setting "blocked_domains" policy) c.blocked_domains in
      ap (any d) (apply_domains-domains policy r (record c { blocked_processes = processes }))
      ∙ update_from-keeps d (setting "blocked_domains" policy) c.blocked_domains h

  pub apply_ports-keeps :
      (d : Text → Bool) (policy : Fields) (o : Option (List Json)) (c : Config)
      → any d c.blocked_domains ≡ true
      → any d (apply_ports shown policy o c).0.blocked_domains ≡ true
  apply_ports-keeps d policy none c h = h
  apply_ports-keeps d policy (some vs) c h =
      apply_processes-keeps d policy
        (update_from shown (setting "blocked_processes" policy) c.blocked_processes)
        (record c { suspicious_ports = insert_all (ports_of vs) c.suspicious_ports }) h

  -- what a policy of the right types leaves: the sets, and that it ended
  abbrev Applied : Fields → Config → Config × Bool → Type 0
  Applied policy c (c', done) =
      (c'.blocked_domains
        ≡ insert_all (elements_of shown (values_at "blocked_domains" policy)) c.blocked_domains)
      × (c'.blocked_processes
          ≡ insert_all (elements_of shown (values_at "blocked_processes" policy))
              c.blocked_processes)
      × (c'.suspicious_ports
          ≡ insert_all (ports_of (values_at "suspicious_ports" policy)) c.suspicious_ports)
      × (done ≡ true)

module _ (now : ℕ) (dumps : List (String × Text) → Text) (ed25519 : Text → Text → Text → Verdict)
    (hmac_sha256 : Text → Text → Text) (os : Os) (o : Options) (shell : String → Bool)
    (system : String) (fresh : ℕ → Text) where
  pub set_network-isolated :
      (b : Bool) (e : Endpoint)
      → (set_network now dumps ed25519 hmac_sha256 os o shell system fresh b e).isolated ≡ b
  unfolding set_network isolate release
  set_network-isolated true e = elim (Bool-cases e.isolated) [
    | inl already ↦ rw already refl
    | inr free ↦ rw free refl
  ]
  set_network-isolated false e = elim (Bool-cases e.isolated) [
    | inl cut ↦ rw cut refl
    | inr free ↦ rw free refl
  ]

  -- the commands of a sound answer end
  handle_all-ends :
      (n : ℕ) (cmds : List Fields) (e : Endpoint)
      → os.writable ≡ true
      → all is_sound_command cmds ≡ true
      → (handle_all now dumps ed25519 hmac_sha256 os o shell system fresh n cmds e).1 ≡ true
  unfolding handle_all
  handle_all-ends n [] e writes h = refl
  handle_all-ends n (cmd ∷ cmds) e writes h =
      let first =
        sound_command_ends now os o cmd writes dumps ed25519 hmac_sha256 (fresh n) e
          (ground (arith, h)) in
      rw (handle_all, first)
        (handle_all-ends (n + 1) cmds
          (handle_command now dumps ed25519 hmac_sha256 os o (fresh n) cmd e).0 writes
          (ground (arith, h)))

  apply_answer-keeps :
      (state : CheckinResponse) (c : Config) (e : Endpoint) (d : Text → Bool)
      → (any d (listed "domain" state.blocklist) || any d c.blocked_domains) ≡ true
      → any d
          (apply_answer now dumps ed25519 hmac_sha256 os o shell system fresh state c
            e).0.blocked_domains
        ≡ true
  unfolding apply_answer merge_blocklist apply_policy
  apply_answer-keeps state c e d h =
      let merged = merge_blocklist state.blocklist c in
      let there : any d merged.blocked_domains ≡ true =
        any-insert_all d (listed "domain" state.blocklist) c.blocked_domains ∙ h in
      let kept =
        apply_ports-keeps os.shown d state.policy (setting "suspicious_ports" state.policy) merged
          there in
      elim (Bool-cases (apply_policy os.shown state.policy merged).1) [
        | inl done ↦ rw (done, apply_answer) kept
        | inr stopped ↦ rw (stopped, apply_answer) kept
      ]

  -- a check-in unblocks no domain, also where it raises
  pub apply_checkin-keeps :
      (state : CheckinResponse) (c : Config) (e : Endpoint) (d : Text → Bool)
      → any d c.blocked_domains ≡ true
      → any d
          (apply_checkin now dumps ed25519 hmac_sha256 os o shell system fresh state
            (c, e)).0.blocked_domains
        ≡ true
  unfolding apply_checkin
  apply_checkin-keeps state c e d h =
      let (e', done) =
        handle_all now dumps ed25519 hmac_sha256 os o shell system fresh 0 state.commands e in
      elim (Bool-cases done) [
        | inl all_done ↦
            rw (all_done, apply_checkin) (apply_answer-keeps state c e' d (ground (arith, h)))
        | inr stopped ↦ rw (stopped, apply_checkin) h
      ]

  -- if its commands end, a check-in blocks what the blocklist names, also where the policy raises
  pub apply_checkin-blocks :
      (state : CheckinResponse) (c : Config) (e : Endpoint) (d : Text → Bool)
      → os.writable ≡ true
      → all is_sound_command state.commands ≡ true
      → any d (listed "domain" state.blocklist) ≡ true
      → any d
          (apply_checkin now dumps ed25519 hmac_sha256 os o shell system fresh state
            (c, e)).0.blocked_domains
        ≡ true
  unfolding apply_checkin
  apply_checkin-blocks state c e d writes sound h =
      let handled = handle_all-ends 0 state.commands e writes sound in
      rw (handled, apply_checkin) (apply_answer-keeps state c _ d (ground (arith, h)))
