-- ===== src/Config/Settings.antt =====
-- What each reader of the loader reads: a variable's text parsed as a whole, or the default where the
-- variable is absent or blank.
use Prim.Native.String.{String}
use text.Mathlib.Text.{◌==◌ as str_eq}
use text.Mathlib.TextEquality.{eq_iff}
use kubernetes_cost_analyzer.Common.{
  ◌≢◌, ◌≡◌, ◌↔◌, ◌⊎◌, refl, sym, ◌∙◌, ap, true, false, Option, none, some, List, [], arith,
  Option-cases, Bool-cases, inl, inr, if◌then◌else◌,
}
use kubernetes_cost_analyzer.Common.Int.{ℤ}
use kubernetes_cost_analyzer.Common.Text.{split, trim_space}
use kubernetes_cost_analyzer.Config.Validation.{is_blank}
use kubernetes_cost_analyzer.Config.Loader.{
  Env, Reading, parsed, str, required_str, integer, int32, csv, trimmed_int, beyond_int32, nonblank,
}

-- A variable that is present and not blank.
abbrev pub Given : Env → String → String → Type 0
Given env key raw = (env key ≡ some raw) × (is_blank raw ≡ false)

abbrev pub Missing : Env → String → Type 0
Missing env key = (env key ≡ none) ⊎ ((raw : String) × (env key ≡ some raw) × (is_blank raw ≡ true))

-- The value of a setting: the default if the variable is missing, and else what its text says.
pub Setting : {A : Type 0} → (String → Option A) → Env → String → A → A → Type 0
Setting parse env key default v =
    (Missing env key × (v ≡ default)) ⊎ ((raw : String) × Given env key raw × (parse raw ≡ some v))

true_ne_false : true ≢ false
true_ne_false h = cc

full-ne_empty : (raw : String) → is_blank raw ≡ false → str_eq raw "" ≡ false
unfolding is_blank trim_space
full-ne_empty raw full = elim (Bool-cases (str_eq raw "")) [
  | inl e ↦ absurd (true_ne_false (sym (ap is_blank ((eq_iff raw "").0 e)) ∙ full))
  | inr e ↦ e
]

abbrev pub int32_of : String → Option ℤ
int32_of raw = elim (trimmed_int raw) [
  | none ↦ none
  | some n ↦ if beyond_int32 n then none else some n
]

abbrev pub keys_of : String → Option (List String)
keys_of raw = some (nonblank (split b',' raw))

module _ {F : Type 0} (env : Env) (key : String) where
  -- A reader reads a setting if it has the default for a missing variable and else what is parsed.
  pub reading_iff :
      {A : Type 0} (parse : String → Option A) (default v : A) (r : Reading F A)
      → (Missing env key → r ≡ (default, []))
      → ((raw : String) → Given env key raw → (r ≡ (v, [])) ↔ (parse raw ≡ some v))
      → (r ≡ (v, [])) ↔ Setting parse env key default v
  unfolding Setting
  reading_iff parse default v r missing given = (
    λ h. elim (Option-cases (env key)) [
      | inl absent ↦ inl (inl absent, ground (arith, missing (inl absent)))
      | inr (raw, e) ↦ elim (Bool-cases (is_blank raw)) [
        | inl empty ↦ inl (inr (raw, e, empty), ground (arith, missing (inr (raw, e, empty))))
        | inr full ↦ inr (raw, (e, full), (given raw (e, full)).0 h)
      ]
    ],
    λ s. elim s [ inl (m, e) ↦ rw e (missing m) | inr (raw, g, e) ↦ (given raw g).1 e ],
  )

  pub parsed-Missing :
      {A : Type 0} (parse : String → Option A) (default : A)
      → Missing env key
      → parsed {F = F} parse env key default ≡ (default, [])
  unfolding parsed
  parsed-Missing parse default (inl absent) = ground arith
  parsed-Missing parse default (inr (raw, e, empty)) = ground arith

  str-Missing : (default : String) → Missing env key → str {F = F} env key default ≡ (default, [])
  unfolding str
  str-Missing default (inl absent) = ground arith
  str-Missing default (inr (raw, e, empty)) = ground arith

  pub parsed_iff :
      {A : Type 0} (parse : String → Option A) (default v : A)
      → (parsed {F = F} parse env key default ≡ (v, [])) ↔ Setting parse env key default v
  unfolding parsed
  parsed_iff parse default v =
      reading_iff parse default v _ (parsed-Missing parse default) (λ raw (e, full). ground arith)

  pub str_iff :
      (default v : String)
      → (str {F = F} env key default ≡ (v, [])) ↔ Setting some env key default v
  unfolding str
  str_iff default v =
      reading_iff some default v _ (str-Missing default) (λ raw (e, full). ground arith)

  pub integer_iff :
      (default v : ℤ)
      → (integer {F = F} env key default ≡ (v, [])) ↔ Setting trimmed_int env key default v
  unfolding integer
  integer_iff default v = parsed_iff trimmed_int default v

  pub required_iff : (v : String) → (required_str {F = F} env key ≡ (v, [])) ↔ Given env key v
  unfolding required_str
  required_iff v = elim (Option-cases (env key)) [
    | inl absent ↦ ground arith
    | inr (raw, e) ↦ ground arith
  ]

  pub int32_iff :
      (default v : ℤ)
      → beyond_int32 default ≡ false
      → (int32 {F = F} env key default ≡ (v, [])) ↔ Setting int32_of env key default v
  unfolding int32
  int32_iff default v h =
      reading_iff int32_of default v _
        (λ m. rw (parsed-Missing trimmed_int default m) (ground arith))
        (λ raw (e, full). unfold parsed in ground arith)

  pub csv_iff : (v : List String) → (csv {F = F} env key ≡ (v, [])) ↔ Setting keys_of env key [] v
  unfolding csv
  csv_iff v =
      reading_iff keys_of [] v _ (λ m. rw (str-Missing "" m) refl)
        (λ raw (e, full). unfold str in ground (arith, full-ne_empty raw full))
