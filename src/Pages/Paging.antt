-- ===== src/Pages/Paging.antt =====
-- What a page holds: the first of the rows that the request's cursor leaves, and a cursor if more are left.
use Prim.Native.String.{String}
use text.Mathlib.Text.{◌==◌ as str_eq}
use kubernetes_cost_analyzer.Common.{
  ℕ, suc, ◌≤◌, ◌-◌, ◌≡◌, ◌≢◌, inl, inr, refl, Bool, false, Option, none, some, List, [], ◌∷◌, ◌++◌,
  map, length, All, ok, arith, if◌then◌else◌, Bool-cases, Option-cases, lt→ltb, length-append,
}
use kubernetes_cost_analyzer.Common.Int.{ℤ, pos_part}
use kubernetes_cost_analyzer.Common.Maps.{Entries, lookup}
use kubernetes_cost_analyzer.Common.Sort.{keep}
use kubernetes_cost_analyzer.Http.Params.{Filters}
use kubernetes_cost_analyzer.Http.Requests.{AllocationsParams}
use kubernetes_cost_analyzer.Pages.{
  Cursor, Codec, encode, Scanned, key, Condition, equals, since, until, is_estimated,
}
use kubernetes_cost_analyzer.Pages.Cursors.{is_incomplete}
use kubernetes_cost_analyzer.Pages.Suffixes.{take_all, length-take, take_cut, get_elem?_cut}
use kubernetes_cost_analyzer.Pages.Fetching.{
  Database, allocations, conditions, filter_conditions, filter_values, filter_columns, filter_pairs,
  cursor_condition, nonempty, page_of, page_size, take,
}

-- The columns of all filters are known, so that the conditions are never refused.
Known : Entries String → Type 0
Known ps = All (λ p. lookup p.0 filter_columns ≢ none) ps

nonempty-Known : (ps : Entries String) → Known ps → Known (nonempty ps)
unfolding Known
nonempty-Known [] h = tt
nonempty-Known (p ∷ ps) (h, hs) = elim (Bool-cases (str_eq p.1 "")) [
  | inl empty ↦ rw empty (nonempty-Known ps hs)
  | inr full ↦ rw full (h, nonempty-Known ps hs)
]

some-ne_none : {A : Type 0} {a : A} → some a ≢ none
some-ne_none h = cc

filter_values-Known : (f : Filters) → Known (filter_values f)
unfolding filter_values
filter_values-Known f = nonempty-Known (filter_pairs f) (
    unfold Known in
    (
      some-ne_none,
      (
        some-ne_none,
        (
          some-ne_none,
          (
            some-ne_none,
            (
              some-ne_none,
              (some-ne_none, (some-ne_none, (some-ne_none, (some-ne_none, (some-ne_none, tt))))),
            ),
          ),
        ),
      ),
    ))

pub page_size_bounds : (n : ℤ) → (1 ≤ pos_part (page_size n)) × (pos_part (page_size n) ≤ 500)
unfolding page_size
page_size_bounds n = ground arith

module _ {D E : Type 0} (codec : Codec E) (db : Database D E) where
  -- The rows that a cursor leaves.
  abbrev pub after : (Cursor → Cursor → Bool) → Option Cursor → List (Scanned D) → List (Scanned D)
  after below none table = table
  after below (some c) table = keep (λ s. below (key s) c) table

  -- The database answers the conditions of a request with the first rows of the table that its cursor
  -- leaves. The table holds the rows within the range and the filters, in descending order of their keys.
  unfoldable pub Answers :
      (Cursor → Cursor → Bool) → AllocationsParams Cursor → List (Scanned D) → Type 0
  Answers below p table =
      (cursor : Option Cursor) (cs : List Condition) (n : ℕ)
      → conditions {E = E} (record p { cursor = cursor }) ≡ ok cs
      → db.run cs n ≡ ok (take n (after below cursor table))

  -- The key of a row can be encoded, and has a window and a container.
  abbrev pub Travels : Scanned D → Type 0
  Travels s = ((text : String) × (encode codec (key s) ≡ ok text)) × (is_incomplete (key s) ≡ false)

  -- A page, by whether more rows are left than it holds.
  pub page_of_last :
      (k : ℕ) (ys : List (Scanned D))
      → length ys ≤ k
      → page_of codec k (take (suc k) ys)
        ≡ ok (record { rows = map (λ s. s.row) ys; next_cursor = "" })
  unfolding page_of
  page_of_last k ys h = rw (take_all (suc k) ys (omega arith)) (ground arith)

  longer :
      (zs : List (Scanned D)) (x : Scanned D) (rest : List (Scanned D))
      → rest ≢ []
      → suc (suc (length zs)) ≤ length (zs ++ x ∷ rest)
  longer zs x [] more = absurd (more refl)
  longer zs x (y ∷ ys) more = omega (arith, length-append zs (x ∷ y ∷ ys))

  pub page_of_more :
      (zs : List (Scanned D)) (x : Scanned D) (rest : List (Scanned D)) (text : String)
      → rest ≢ []
      → encode codec (key x) ≡ ok text
      → page_of codec (suc (length zs)) (take (suc (suc (length zs))) (zs ++ x ∷ rest))
        ≡ ok (record { rows = map (λ s. s.row) (zs ++ x ∷ []); next_cursor = text })
  unfolding page_of
  page_of_more zs x rest text more h =
      let full = length-take (suc (suc (length zs))) (zs ++ x ∷ rest) (longer zs x rest more) in
      let spare =
        lt→ltb (suc (length zs)) (length (take (suc (suc (length zs))) (zs ++ x ∷ rest)))
          (omega arith) in
      let one_less : suc (length zs) - 1 ≡ length zs = omega arith in
      rw (spare, take_cut zs x rest, one_less, get_elem?_cut zs x, h) (rw (take_cut zs x rest) refl)

  -- The conditions of a request exist.
  filter_conditions_ok :
      (ps : Entries String)
      → Known ps
      → (cs : List Condition) × (filter_conditions {E = E} ps ≡ ok cs)
  unfolding filter_conditions Known
  filter_conditions_ok [] _ = ([], refl)
  filter_conditions_ok (p ∷ ps) (known, rest) =
      let (cs, e) = filter_conditions_ok ps rest in
      elim (Option-cases (lookup p.0 filter_columns)) [
        | inl unknown ↦ absurd (known unknown)
        | inr (column, found) ↦ (equals column p.1 ∷ cs, ground arith)
      ]

  conditions_ok :
      (p : AllocationsParams Cursor) → (cs : List Condition) × (conditions {E = E} p ≡ ok cs)
  unfolding conditions
  conditions_ok p =
      let (cs, e) =
        filter_conditions_ok (filter_values p.filters) (filter_values-Known p.filters) in
      (
        (since p.from ∷ until p.to ∷ cs)
            ++ (if p.filters.estimated_only then is_estimated ∷ [] else [])
            ++ cursor_condition p.cursor,
        rw e refl,
      )

  -- A request is answered with the page that the rows which its cursor leaves make up.
  module _ (below : Cursor → Cursor → Bool) (p : AllocationsParams Cursor)
      (table : List (Scanned D)) (answers : Answers below p table) where
    pub allocations_page :
        (cursor : Option Cursor)
        → allocations codec db (record p { cursor = cursor })
          ≡ page_of codec
              (pos_part (page_size p.limit))
              (take (suc (pos_part (page_size p.limit))) (after below cursor table))
    unfolding allocations Answers
    allocations_page cursor =
        let (cs, e) = conditions_ok (record p { cursor = cursor }) in
        ground (arith, e, answers cursor cs (suc (pos_part (page_size p.limit))) e)
