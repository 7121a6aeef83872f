-- ===== src/Server/Auth/Signup.antt =====
-- Self-service registration: `_unique_slug` and `signup` of server/app/services/auth_service.py. A letter or
-- digit of a name is one of ASCII. The loop of `_unique_slug` runs on fuel.
pub mod Slugs
use silentguard_xdr.Server.Models.{Db, Organization, User}
use silentguard_xdr.Server.Exec.{
  Result, ok, err, Exec, http, pure, raise_if, or_raise, raise, gets, modify, atomic, ◌>>=◌, ◌>>◌,
}
use silentguard_xdr.Server.Auth.Settings.{Settings}
use silentguard_xdr.Server.Auth.Password.{validate_password}
use silentguard_xdr.Server.Auth.OneTime.{email_taken, new_user, check}
use silentguard_xdr.Prelude.{
  ℕ, zero, suc, ◌+◌, ◌/◌, ◌%◌, String, Bool, true, ◌||◌, Option, none, some, [], ◌∷◌, ◌++◌, map,
  ltb, if◌then◌else◌, ◌==◌, nat_eq, string_eq, option_eq, list_eq, length, any,
}
use silentguard_xdr.Prelude.Text.{
  Text, codes, is_digit, is_alpha, lower, lstrip_by, rstrip_by, strip,
}

abbrev is_alnum : ℕ → Bool
is_alnum c = is_alpha c || is_digit c

abbrev dash_other : ℕ → ℕ
dash_other c = if is_alnum c then c else b'-'

-- `s[:n]`
abbrev pub take : ℕ → Text → Text
take zero s = []
take (suc n) [] = []
take (suc n) (c ∷ s) = c ∷ take n s

-- `base` of `_unique_slug`
unfoldable pub slug_base : Text → Text
slug_base name =
    let dashed = map dash_other (lower (strip name)) in
    let trimmed = rstrip_by (λ c. c == b'-') (lstrip_by (λ c. c == b'-') dashed) in
    take 48 (if trimmed == [] then codes "org" else trimmed)

-- `str(n)`, the digits before `rest`
unfoldable pub decimal : ℕ → ℕ → Text → Text
decimal zero n rest = rest
decimal (suc fuel) n rest =
    let later = decimal fuel (n / 10) ((b'0' + n % 10) ∷ rest) in
    if ltb n 10 then (b'0' + n) ∷ rest else later

-- `f"{base}-{i}"`
unfoldable pub numbered : Text → ℕ → Text
unfolding decimal
numbered base i = base ++ b'-' ∷ decimal (suc i) i []

abbrev pub slug_taken : Db → Text → Bool
slug_taken db slug = any (λ o. o.slug == slug) db.organizations

-- the loop of `_unique_slug`, from `i`; none where the fuel runs out
unfoldable pub next_slug : ℕ → Db → Text → Text → ℕ → Option Text
unfolding numbered
next_slug zero db base slug i = none
next_slug (suc fuel) db base slug i =
    let later = next_slug fuel db base (numbered base (i + 1)) (i + 1) in
    if slug_taken db slug then later else some slug

-- `_unique_slug`, with one turn of the loop for each organization and two more
unfoldable pub unique_slug : Db → Text → Option Text
unique_slug db name = next_slug (length db.organizations + 2) db (slug_base name) (slug_base name) 1

-- a plan that a customer may choose
abbrev pub self_serve : String → String
self_serve plan = if plan == "individual" || plan == "team" then plan else "individual"

abbrev pub new_org : ℕ → String → Text → Text → String → Organization
new_org now id name slug plan = record {
  id = id;
  name = name;
  slug = slug;
  is_active = true;
  plan = plan;
  license_tier = "community";
  max_devices = 0;
  created_at = now;
}

abbrev pub or_text : Text → Text → Text
or_text [] rest = rest
or_text (c ∷ s) rest = c ∷ s

module _ (pbkdf2 : Text → Text → ℕ → Text) (digest : String → String) (s : Settings) (now : ℕ) where
  -- `signup`; `id`, `org_id` and `salt` are what it draws
  unfoldable pub signup : String → String → Text → Text → Text → Text → String → Exec Db User
  unfolding unique_slug
  signup id org_id salt email password org_name plan = atomic (do
    let address = lower (strip email)
    taken ← gets (email_taken digest now pbkdf2 s address)
    raise_if taken (http 409 "A user with that email already exists")
    check (validate_password s password)
    found ← gets (λ db. unique_slug db (or_text org_name address))
    slug ← or_raise found (http 500 "Internal server error")
    let org = new_org now org_id (or_text (strip org_name) address) slug (self_serve plan)
    let user = new_user digest now pbkdf2 s id org_id address salt password "owner"
    modify (λ db. record db { organizations = db.organizations ++ org ∷ [] })
    modify (λ db. record db { users = db.users ++ user ∷ [] })
    pure user)
