-- ===== src/Prom/Selectors.antt =====
-- What of a namespace gets into a query.
use Prim.Native.Char.{Char}
use Prim.Native.String.{String}
use Prim.Native.String.{◌++◌ as str_append}
use text.Mathlib.Text.{◌==◌ as str_eq}
use text.Mathlib.TextEquality.{eq_iff}
use kubernetes_cost_analyzer.Common.{
  ◌≤◌, ◌≡◌, ◌≢◌, ◌↔◌, ◌⊎◌, refl, inl, inr, Bool, true, false, ◌||◌, List, [], ◌∷◌, All, arith, ltb,
  Bool-cases,
}
use kubernetes_cost_analyzer.Common.Text.{chars, byte_length}
use kubernetes_cost_analyzer.Prom.{
  is_label_letter, is_dash, label_from, is_dns1123_label, namespace_selector,
}

abbrev is_legal : Char → Bool
is_legal c = is_label_letter c || is_dash c

abbrev starts_with_dash : List Char → Bool
starts_with_dash [] = false
starts_with_dash (c ∷ cs) = is_dash c

abbrev ends_with_dash : List Char → Bool
ends_with_dash [] = false
ends_with_dash (c ∷ []) = is_dash c
ends_with_dash (c ∷ d ∷ ds) = ends_with_dash (d ∷ ds)

-- A DNS-1123 label: up to 63 lower-case letters, digits and dashes, no dash at an end.
pub record IsLabel (s : String) : Type 0 where
  pub named : s ≢ ""
  pub short : byte_length (chars s) ≤ 63
  pub legal : All (λ c. is_legal c ≡ true) (chars s)
  pub starts : starts_with_dash (chars s) ≡ false
  pub ends : ends_with_dash (chars s) ≡ false

letter_no_dash : (c : Char) → is_label_letter c ≡ true → is_dash c ≡ false
letter_no_dash c h = ground arith

later_iff :
    (cs : List Char)
    → (label_from false cs ≡ true) ↔ (All (λ c. is_legal c ≡ true) cs × (ends_with_dash cs ≡ false))
unfolding label_from
later_iff [] = (λ h. (tt, refl), λ h. refl)
later_iff (c ∷ []) = elim (Bool-cases (is_label_letter c)) [
  | inl letter ↦ (λ h. ((ground arith, tt), letter_no_dash c letter), λ h. ground arith)
  | inr other ↦ (λ h. absurd (ground arith), λ ((l, _), e). absurd (ground arith))
]
later_iff (c ∷ d ∷ ds) =
    let more = later_iff (d ∷ ds) in
    elim (Bool-cases (is_label_letter c)) [
      | inl letter ↦ (
        λ h. ((ground arith, (more.0 (ground arith)).0), (more.0 (ground arith)).1),
        λ ((l, ls), e). ground (arith, more.1 (ls, e)),
      )
      | inr other ↦ elim (Bool-cases (is_dash c)) [
        | inl dash ↦ (
          λ h. ((ground arith, (more.0 (ground arith)).0), (more.0 (ground arith)).1),
          λ ((l, ls), e). ground (arith, more.1 (ls, e)),
        )
        | inr bad ↦ (λ h. absurd (ground arith), λ ((l, _), e). absurd (ground arith))
      ]
    ]

first_iff :
    (cs : List Char)
    → (label_from true cs ≡ true) ↔ ((starts_with_dash cs ≡ false) × (label_from false cs ≡ true))
unfolding label_from
first_iff [] = (λ h. (refl, refl), λ h. refl)
first_iff (c ∷ cs) = elim (Bool-cases (is_label_letter c)) [
  | inl letter ↦ (λ h. (letter_no_dash c letter, ground arith), λ (s, h). ground arith)
  | inr other ↦ (λ h. absurd (ground arith), λ (s, h). absurd (ground arith))
]

pub is_dns1123_label_iff : (s : String) → (is_dns1123_label s ≡ true) ↔ IsLabel s
unfolding is_dns1123_label
is_dns1123_label_iff s = elim (Bool-cases (str_eq s "")) [
  | inl empty ↦ (λ h. absurd (ground arith), λ l. absurd (l.named ((eq_iff s "").0 empty)))
  | inr full ↦ elim (Bool-cases (ltb 63 (byte_length (chars s)))) [
    | inl long ↦ (λ h. absurd (ground arith), λ l. absurd (ground (arith, l.short)))
    | inr short ↦ (
      λ h.
          let (starts, rest) = (first_iff (chars s)).0 (ground arith) in
          let (legal, ends) = (later_iff (chars s)).0 rest in
          record {
            named = λ e. cc;
            short = ground arith;
            legal = legal;
            starts = starts;
            ends = ends;
          },
      λ l.
          let good =
            (first_iff (chars s)).1 (l.starts, (later_iff (chars s)).1 (l.legal, l.ends)) in
          ground arith,
    )
  ]
]

-- No text but a DNS label gets into a query: the selector of a name is the matcher with the name in
-- quotes if the name is a label (of one to 63 lower-case letters, digits and dashes, with no dash at
-- either end), and it is empty otherwise.
pub namespace_selector_cases :
    (namespace : String)
    → (IsLabel namespace
        × (namespace_selector namespace ≡ str_append ",namespace=\"" (str_append namespace "\"")))
      ⊎ ((¬ IsLabel namespace) × (namespace_selector namespace ≡ ""))
unfolding namespace_selector
namespace_selector_cases namespace = elim (Bool-cases (is_dns1123_label namespace)) [
  | inl good ↦
      let label = (is_dns1123_label_iff namespace).0 good in
      inl (label, ground (arith, label.named, eq_iff namespace ""))
  | inr bad ↦ inr (λ label. cc (bad, (is_dns1123_label_iff namespace).1 label), ground arith)
]
