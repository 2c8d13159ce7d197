-- ===== src/Handlers/Fleet.antt =====
-- What the guard of clusters.go lets through: a query of one cluster, or a fleet of one currency.
use Prim.Native.String.{String}
use text.Mathlib.Text.{◌==◌ as str_eq}
use text.Mathlib.TextEquality.{eq_iff}
use kubernetes_cost_analyzer.Common.{
  suc, ◌≤◌, ◌≡◌, ◌≢◌, ◌↔◌, ◌⊎◌, inl, inr, refl, sym, ap, ◌∙◌, subst, true, false, none, some, List,
  [], ◌∷◌, map, length, leb, leb→le, le→leb, All, All-map, arith, Result, ok, Result-cases,
  ok-injective, Bool-cases, if◌then◌else◌,
}
use kubernetes_cost_analyzer.Common.Maps.{Entries, lookup, insert, lookup-insert}
use kubernetes_cost_analyzer.Common.Sort.{length-sort_stable}
use kubernetes_cost_analyzer.Handlers.{
  ClusterRow, seen_from, distinct_currencies, string_less, guard_currency,
}

-- A cluster without a currency, or with this one.
abbrev pub Reports : String → ClusterRow → Type 0
Reports currency c = (c.currency ≡ "") ⊎ (c.currency ≡ currency)

-- The query is of one cluster, or the fleet is known and has one currency.
abbrev pub IsOneCurrency : {E : Type 0} → Result E (List ClusterRow) → String → Type 0
IsOneCurrency fleet cluster =
    (cluster ≢ "")
    ⊎ ((rows : List ClusterRow) × (fleet ≡ ok rows)
        × (currency : String) × All (Reports currency) rows)

abbrev Seen : Type 0
Seen = Entries (Unit {0})

-- What was seen stays seen, and each currency of the rows is seen.
seen_from-keeps :
    (name : String) (seen : Seen) (rows : List ClusterRow)
    → lookup name seen ≡ some tt
    → lookup name (seen_from seen rows) ≡ some tt
unfolding seen_from
seen_from-keeps name seen [] h = h
seen_from-keeps name seen (c ∷ cs) h = elim (Bool-cases (str_eq c.currency "")) [
  | inl e ↦ rw e (seen_from-keeps name seen cs h)
  | inr e ↦ rw e (
      seen_from-keeps name (insert c.currency tt seen) cs
        (ground (arith, lookup-insert c.currency name tt seen)))
]

abbrev IsSeenIn : Seen → ClusterRow → Type 0
IsSeenIn seen c = (c.currency ≡ "") ⊎ (lookup c.currency seen ≡ some tt)

abbrev after : ClusterRow → Seen → Seen
after c seen = if str_eq c.currency "" then seen else insert c.currency tt seen

after_is_seen :
    (c : ClusterRow) (seen : Seen) (cs : List ClusterRow) → IsSeenIn (seen_from (after c seen) cs) c
after_is_seen c seen cs = elim (Bool-cases (str_eq c.currency "")) [
  | inl e ↦ inl ((eq_iff c.currency "").0 e)
  | inr e ↦ inr (
      seen_from-keeps c.currency (after c seen) cs (
        rw e (
          ground
            (arith, lookup-insert c.currency c.currency tt seen, eq_iff c.currency c.currency))))
]

seen_from-All : (seen : Seen) (rows : List ClusterRow) → All (IsSeenIn (seen_from seen rows)) rows
unfolding seen_from
seen_from-All seen [] = tt
seen_from-All seen (c ∷ cs) = (after_is_seen c seen cs, seen_from-All (after c seen) cs)

length-map : {A B : Type 0} (f : A → B) (xs : List A) → length (map f xs) ≡ length xs
length-map f [] = refl
length-map f (x ∷ xs) = ap suc (length-map f xs)

length-distinct :
    (rows : List ClusterRow) → length (distinct_currencies rows) ≡ length (seen_from [] rows)
unfolding distinct_currencies
length-distinct rows =
    length-sort_stable string_less (map (λ p. p.0) (seen_from [] rows))
    ∙ length-map (λ p. p.0) (seen_from [] rows)

-- Of one name at most, every name that is found is that one.
sole_name :
    (seen : Seen)
    → length seen ≤ 1
    → (currency : String) × ((c : String) → lookup c seen ≡ some tt → c ≡ currency)
sole_name [] h = ("", λ c found. cc)
sole_name (entry ∷ []) h = (entry.0, λ c found. ground (arith, eq_iff entry.0 c))
sole_name (a ∷ b ∷ rest) h = absurd (ground arith)

sole_currency :
    (rows : List ClusterRow)
    → length (seen_from [] rows) ≤ 1
    → (currency : String) × All (Reports currency) rows
sole_currency rows h =
    let (currency, sole) = sole_name (seen_from [] rows) h in
    (
      currency,
      All-map (IsSeenIn (seen_from [] rows)) (Reports currency) rows
          (λ c s. elim s [ inl e ↦ inl e | inr e ↦ inr (sole c.currency e) ])
          (seen_from-All [] rows),
    )

insert_sole :
    (currency : String) (c : ClusterRow) (seen : Seen)
    → (seen ≡ []) ⊎ (seen ≡ (currency, tt) ∷ [])
    → Reports currency c
    → str_eq c.currency "" ≡ false
    → insert c.currency tt seen ≡ (currency, tt) ∷ []
unfolding insert
insert_sole currency c seen known (inl e) h = absurd (ground (arith, eq_iff c.currency ""))
insert_sole currency c seen (inl e) (inr same) h = rw e (ap (λ n. (n, tt) ∷ []) same)
insert_sole currency c seen (inr e) (inr same) h =
    rw (e, same, (eq_iff currency currency).1 refl) refl

-- Clusters of one currency leave at most that currency.
seen_from-sole :
    (currency : String) (seen : Seen) (rows : List ClusterRow)
    → (seen ≡ []) ⊎ (seen ≡ (currency, tt) ∷ [])
    → All (Reports currency) rows
    → length (seen_from seen rows) ≤ 1
unfolding seen_from insert
seen_from-sole currency seen [] (inl e) _ = subst (λ s. length s ≤ 1) (sym e) (ground arith)
seen_from-sole currency seen [] (inr e) _ = subst (λ s. length s ≤ 1) (sym e) (ground arith)
seen_from-sole currency seen (c ∷ cs) known (r, rs) = elim (Bool-cases (str_eq c.currency "")) [
  | inl e ↦ rw e (seen_from-sole currency seen cs known rs)
  | inr e ↦ rw e (
      seen_from-sole currency (insert c.currency tt seen) cs
        (inr (insert_sole currency c seen known r e)) rs)
]

-- The test of the guard and of the listing, on the rows.
pub distinct_currencies-sole_iff :
    (rows : List ClusterRow)
    → (leb (length (distinct_currencies rows)) 1 ≡ true)
      ↔ ((currency : String) × All (Reports currency) rows)
distinct_currencies-sole_iff rows = (
  λ h.
      sole_currency rows
        (omega (arith, length-distinct rows, leb→le (length (distinct_currencies rows)) 1 h)),
  λ (currency, rs).
      le→leb (length (distinct_currencies rows)) 1
        (omega (arith, length-distinct rows, seen_from-sole currency [] rows (inl refl) rs)),
)

pub guard_currency-none_iff :
    {E : Type 0} (fleet : Result E (List ClusterRow)) (cluster : String)
    → (guard_currency fleet cluster ≡ none) ↔ IsOneCurrency fleet cluster
unfolding guard_currency
guard_currency-none_iff fleet cluster = elim (Bool-cases (str_eq cluster "")) [
  | inr named ↦ rw named (λ _. inl (λ e. ground (arith, eq_iff cluster "")), λ _. refl)
  | inl whole ↦ elim (Result-cases fleet) [
    | inl (e, fails) ↦
        rw (whole, fails)
          (
            λ h. cc,
            λ one. elim one [
              | inl named ↦ absurd (named ((eq_iff cluster "").0 whole))
              | inr (rows, h, _, _) ↦ cc
            ],
          )
    | inr (rows, answers) ↦ elim (Bool-cases (leb (length (distinct_currencies rows)) 1)) [
      | inl sole ↦
          rw (whole, answers, sole)
            (
              λ _.
                  let (currency, rs) = (distinct_currencies-sole_iff rows).0 sole in
                  inr (rows, refl, currency, rs),
              λ _. refl,
            )
      | inr several ↦
          rw (whole, answers, several)
            (
              λ h. cc,
              λ one. elim one [
                | inl named ↦ absurd (named ((eq_iff cluster "").0 whole))
                | inr (rows', same, currency, rs) ↦
                    let sole = (distinct_currencies-sole_iff rows').1 (currency, rs) in
                    let equal = ok-injective same in cc
              ],
            )
    ]
  ]
]
