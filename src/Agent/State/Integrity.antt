-- ===== src/Agent/State/Integrity.antt =====
-- Which state files are trusted.
use package.text.Mathlib.TextEquality.{eq_iff}
use silentguard_xdr.Server.Models.{Json, text, Fields, end, field, get, put, truthy}
use silentguard_xdr.Server.Objects.{get-put}
use silentguard_xdr.Server.Fleet.Telemetry.{truthy_at}
use silentguard_xdr.Agent.State.{
  without, has_credentials, get_update_floor, Identity, compute_mac, sign, is_authentic,
  set_update_floor, value_at, ensure_enrolled,
}
use silentguard_xdr.Prelude.{
  String, ◌≡◌, refl, ap, inl, inr, true, false, ◌&&◌, some, [], ◌∷◌, arith, ◌==◌, nat_eq, string_eq,
  option_eq, list_eq, beq_refl, Bool-cases,
}
use silentguard_xdr.Prelude.Text.{Text}

module _ (k j : String) (w : Json) (d : Fields) (other : (j == k) ≡ false) where
  without_other : without k (field j w d) ≡ field j w (without k d)
  unfolding without
  without_other = rw other refl

  put_other : (v : Json) → put k v (field j w d) ≡ field j w (put k v d)
  unfolding put
  put_other v = rw other refl

without_same :
    (k j : String) (w : Json) (d : Fields) → (j == k) ≡ true → without k (field j w d) ≡ without k d
unfolding without
without_same k j w d same = rw same refl

-- removing twice, and removing what was added
without-put : (k : String) (v : Json) (d : Fields) → without k (put k v (without k d)) ≡ without k d
without-put k v end = unfold without put in ground (arith, eq_iff k k)
without-put k v (field j w d) = elim (Bool-cases (j == k)) [
  | inl same ↦ rw (without_same k j w d same) (without-put k v d)
  | inr other ↦
      rw
        (
          without_other k j w d other,
          put_other k j w (without k d) other v,
          without_other k j w (put k v (without k d)) other,
        )
        (ap (λ r. field j w r) (without-put k v d))
]

without_twice : (k : String) (d : Fields) → without k (without k d) ≡ without k d
without_twice k end = unfold without in refl
without_twice k (field j w d) = elim (Bool-cases (j == k)) [
  | inl same ↦ rw (without_same k j w d same) (without_twice k d)
  | inr other ↦
      rw (without_other k j w d other, without_other k j w (without k d) other)
        (ap (λ r. field j w r) (without_twice k d))
]

get-without : (k j : String) (d : Fields) → (j == k) ≡ false → get j (without k d) ≡ get j d
unfolding without get
get-without k j end apart = refl
get-without k j (field i w d) apart =
    ground (arith, eq_iff i k, eq_iff i j, eq_iff j k, get-without k j d apart)

truthy-text : (t : Text) → (t == []) ≡ false → truthy (text t) ≡ true
unfolding truthy
truthy-text [] h = cc
truthy-text (c ∷ t) h = refl

module _ (dumps : Fields → Text) (hmac_sha256 : Text → Text → Text) where
  get-sign :
      (key : Text) (state : Fields)
      → get "_integrity" (sign dumps hmac_sha256 state key)
        ≡ some (text (hmac_sha256 key (dumps (without "_integrity" state))))
  unfolding sign compute_mac
  get-sign key state =
      let signed = without "_integrity" state in
      rw
        (
          get-put "_integrity" "_integrity" (text (compute_mac dumps hmac_sha256 signed key))
              signed,
          without_twice "_integrity" state,
        )
        refl

  mac-sign :
      (key : Text) (state : Fields)
      → compute_mac dumps hmac_sha256 (sign dumps hmac_sha256 state key) key
        ≡ hmac_sha256 key (dumps (without "_integrity" state))
  unfolding sign compute_mac
  mac-sign key state =
      rw
        (without-put "_integrity"
          (text (compute_mac dumps hmac_sha256 (without "_integrity" state) key)) state)
        refl

  -- a field that neither the signature nor the floor is
  get-floor :
      (key version : Text) (j : String) (state : Fields)
      → (j == "_integrity") ≡ false
      → ("update_floor" == j) ≡ false
      → ("_integrity" == j) ≡ false
      → get j (set_update_floor dumps hmac_sha256 key version state) ≡ get j state
  unfolding set_update_floor sign
  get-floor key version j state a b c =
      let raised = put "update_floor" (text version) state in
      let signed = without "_integrity" raised in
      rw
        (
          get-put j "_integrity" (text (compute_mac dumps hmac_sha256 signed key)) signed,
          c,
          get-without "_integrity" j raised a,
          get-put j "update_floor" (text version) state,
          b,
        )
        refl

  -- A state that the agent has signed is authentic under its key, if digests are not empty.
  pub is_authentic-sign :
      (key : Text) (state : Fields)
      → ((k m : Text) → (hmac_sha256 k m == []) ≡ false)
      → is_authentic dumps hmac_sha256 (sign dumps hmac_sha256 state key) key ≡ true
  unfolding is_authentic
  is_authentic-sign key state digests =
      let mac = hmac_sha256 key (dumps (without "_integrity" state)) in
      rw (get-sign key state, mac-sign key state, is_authentic)
        (rw (truthy-text mac (digests key (dumps (without "_integrity" state)))) (beq_refl mac))

  -- Raising the update floor signs whatever state the file has: the credentials in it are accepted at the next
  -- start, also where the file was not authentic before.
  pub floor_signs_any_state :
      (key version : Text) (answer : Identity) (state : Fields)
      → ((k m : Text) → (hmac_sha256 k m == []) ≡ false)
      → has_credentials state ≡ true
      → let run =
          ensure_enrolled dumps hmac_sha256 key answer
            (set_update_floor dumps hmac_sha256 key version state) in
        (run.tampered ≡ false)
        × (run.identity.device_id ≡ value_at dumps hmac_sha256 "device_id" state)
        × (run.identity.api_key ≡ value_at dumps hmac_sha256 "api_key" state)
  unfolding ensure_enrolled
  floor_signs_any_state key version answer state digests creds =
      let floored = set_update_floor dumps hmac_sha256 key version state in
      let id = get-floor key version "device_id" state refl refl refl in
      let api = get-floor key version "api_key" state refl refl refl in
      let still : has_credentials floored ≡ true =
        unfold has_credentials in rw (id, api, has_credentials, truthy_at) creds in
      let trusted : is_authentic dumps hmac_sha256 floored key ≡ true =
        unfold set_update_floor in
        is_authentic-sign key (put "update_floor" (text version) state) digests in
      rw (still, trusted) (refl, rw (id, value_at) refl, rw (api, value_at) refl)

  -- A device that enrolls again, because its state is not authentic or has no credentials, has no update
  -- floor any more.
  pub enrolling_drops_floor :
      (key : Text) (answer : Identity) (state : Fields)
      → (has_credentials state && is_authentic dumps hmac_sha256 state key) ≡ false
      → get_update_floor (ensure_enrolled dumps hmac_sha256 key answer state).state ≡ []
  unfolding ensure_enrolled get_update_floor sign without put get
  enrolling_drops_floor key answer state h = elim (Bool-cases (has_credentials state)) [
    | inl creds ↦ elim (Bool-cases (is_authentic dumps hmac_sha256 state key)) [
      | inl trusted ↦ absurd (ground (arith, h, creds, trusted))
      | inr forged ↦ rw (creds, forged) refl
    ]
    | inr none_yet ↦ rw none_yet refl
  ]
