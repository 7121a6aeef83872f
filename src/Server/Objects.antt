-- ===== src/Server/Objects.antt =====
-- Reading a field of a JSON object after a write.
use mathlib.Core.Path.{subst}
use text.Mathlib.TextEquality.{eq_iff}
use silentguard_xdr.Server.Models.{Json, Fields, get, put, merge, end, field}
use silentguard_xdr.Prelude.{
  String, ◌≡◌, refl, ◌∙◌, inl, inr, none, some, arith, if◌then◌else◌, ◌==◌, nat_eq, string_eq,
  option_eq, list_eq, Bool-cases,
}

-- a JSON object has each key once
abbrev pub Distinct : Fields → Type 0
Distinct end = Unit
Distinct (field k v rest) = (get k rest ≡ none) × Distinct rest

pub get-put :
    (k j : String) (v : Json) (d : Fields)
    → get k (put j v d) ≡ (if j == k then some v else get k d)
unfolding get put
get-put k j v end = refl
get-put k j v (field i w d) = ground (arith, eq_iff i j, eq_iff i k, eq_iff j k, get-put k j v d)

-- a field that the second object does not have
pub get-merge :
    (k : String) (d params : Fields) → get k params ≡ none → get k (merge d params) ≡ get k d
unfolding merge get put
get-merge k d end h = refl
get-merge k d (field j v fs) h =
    get-merge k (put j v d) fs (ground arith) ∙ get-put k j v d ∙ ground arith

-- a field that the second object has
pub get-merge-some :
    (k : String) (v : Json) (d params : Fields)
    → Distinct params
    → get k params ≡ some v
    → get k (merge d params) ≡ some v
unfolding merge get
get-merge-some k v d end h e = cc
get-merge-some k v d (field j w fs) (once, rest) e =
    let later = get-merge-some k v (put j w d) fs rest in
    let kept = get-merge k (put j w d) fs in
    let written = get-put k j w d in
    elim (Bool-cases (j == k)) [
      | inl same ↦
          let there : j ≡ k = (eq_iff j k).0 same in
          kept (subst (λ i. get i fs ≡ none) there once) ∙ written ∙ ground arith
      | inr other ↦ later (ground arith)
    ]
