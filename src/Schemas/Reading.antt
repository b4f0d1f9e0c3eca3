-- ===== src/Schemas/Reading.antt =====
-- The steps of a schema's validation in app/schemas, each against what it asks of the body.
use ticketflow.Base.{
  ℕ, ◌≤◌, ◌≡◌, refl, sym, ap, ◌∙◌, ◌↔◌, inl, inr, true, false, Option, none, some, List, [], ◌∷◌,
  String, ◌==◌, string_eq, any, All, Elem, length, arith, Bool-cases,
}
use ticketflow.Base.Text.{Text, strip}
use ticketflow.Models.{Enumeration}
use ticketflow.Schemas.Values.{
  Json, Body, string, null, compound, lookup, Pydantic, strip_text, forbid_extra, required, guard,
  ◌>>=◌,
}

pub some_bind_iff :
    {A B : Type 0} (m : Option A) (f : A → Option B) (b : B)
    → ((m >>= f) ≡ some b) ↔ ((a : A) × (m ≡ some a) × (f a ≡ some b))
some_bind_iff none f b = (λ h. cc, λ (a, h, k). cc)
some_bind_iff (some a) f b = (λ h. (a, refl, h), λ (x, h, k). let q : a ≡ x = cc in rw q k)

pub named_iff :
    (k : String) (names : List String) → (any (λ name. k == name) names ≡ true) ↔ Elem k names
named_iff k [] = (λ h. cc, λ m. absurd m)
named_iff k (name ∷ names) = grow (string_eq.test_iff k name) (named_iff k names)
  where
    grow :
        ((k == name) ≡ true) ↔ (k ≡ name)
        → (any (λ n. k == n) names ≡ true) ↔ Elem k names
        → (any (λ n. k == n) (name ∷ names) ≡ true) ↔ Elem k (name ∷ names)
    grow f g = (
      λ h. elim (Bool-cases (k == name)) [ inl e ↦ inl (f.0 e) | inr e ↦ inr (g.0 (rw e at h)) ],
      λ m. elim m [ inl p ↦ rw (f.1 p) | inr k ↦ rw (g.1 k) (ground arith) ],
    )

-- Every field of the body has one of the names.
abbrev pub OnlyNames : List String → Body → Type 0
OnlyNames names = All (λ (e : String × Json). Elem e.0 names)

pub forbid_extra_iff :
    (names : List String) (body : Body) → (forbid_extra names body ≡ some tt) ↔ OnlyNames names body
unfolding forbid_extra
forbid_extra_iff names [] = (λ h. tt, λ h. refl)
forbid_extra_iff names ((k, v) ∷ body) = (
  λ h. elim (Bool-cases (any (λ name. k == name) names)) [
    | inl e ↦ ((named_iff k names).0 e, (forbid_extra_iff names body).0 (rw e at h))
    | inr e ↦ let c : guard false ≡ some tt = rw e at h in cc
  ],
  λ h. rw ((named_iff k names).1 h.0) ((forbid_extra_iff names body).1 h.1),
)

-- The field is a string that has the bounds once it is stripped.
abbrev pub Stripped : (min_length max_length : ℕ) → String → Body → Text → Type 0
Stripped min_length max_length name body t =
    (s : Text) × (lookup name body ≡ some (string s))
    × (t ≡ strip s)
    × (min_length ≤ length t)
    × (length t ≤ max_length)

-- The field is the value of the member.
abbrev pub Names : {A : Type 0} → Enumeration A → String → Body → A → Type 0
Names enum name body a = lookup name body ≡ some (string (enum.value a))

string-injective : (s t : Text) → string s ≡ string t → s ≡ t
string-injective s t h = cc

module _ (pydantic : Pydantic) where
  pub strip_check_iff :
      (lo hi : ℕ) (v : Json) (t : Text)
      → (pydantic.str_field lo hi (strip_text v) ≡ some t)
        ↔ ((s : Text) × (v ≡ string s) × (t ≡ strip s) × (lo ≤ length t) × (length t ≤ hi))
  unfolding strip_text
  strip_check_iff lo hi null t =
      (λ h. let e = ((pydantic.str_field_iff lo hi null t).0 h).0 in cc, λ (s, e, q, a, b). cc)
  strip_check_iff lo hi compound t =
      (λ h. let e = ((pydantic.str_field_iff lo hi compound t).0 h).0 in cc, λ (s, e, q, a, b). cc)
  strip_check_iff lo hi (string s) t = (
    λ h.
        let (e, a, b) = (pydantic.str_field_iff lo hi (string (strip s)) t).0 h in
        (s, refl, sym (string-injective (strip s) t e), a, b),
    λ (s', e, q, a, b).
        let same : strip s ≡ t = ap strip (string-injective s s' e) ∙ sym q in
        (pydantic.str_field_iff lo hi (string (strip s)) t).1 (ap string same, a, b),
  )

  pub text_field_iff :
      (lo hi : ℕ) (name : String) (body : Body) (t : Text)
      → (required (λ v. pydantic.str_field lo hi (strip_text v)) name body ≡ some t)
        ↔ Stripped lo hi name body t
  text_field_iff lo hi name body t =
      let f = some_bind_iff (lookup name body) (λ v. pydantic.str_field lo hi (strip_text v)) t in
      (
        λ h.
            let (v, e, c) = f.0 h in
            let (s, q, u, a, b) = (strip_check_iff lo hi v t).0 c in (s, e ∙ ap some q, u, a, b),
        λ (s, e, u, a, b).
            f.1 (string s, e, (strip_check_iff lo hi (string s) t).1 (s, refl, u, a, b)),
      )

  pub member_field_iff :
      {A : Type 0} (enum : Enumeration A) (name : String) (body : Body) (a : A)
      → (required (pydantic.enum_field enum) name body ≡ some a) ↔ Names enum name body a
  member_field_iff enum name body a =
      let f = some_bind_iff (lookup name body) (pydantic.enum_field enum) a in
      (
        λ h. let (v, e, c) = f.0 h in e ∙ ap some ((pydantic.enum_field_iff enum v a).0 c),
        λ h. f.1 (string (enum.value a), h, (pydantic.enum_field_iff enum _ a).1 refl),
      )
