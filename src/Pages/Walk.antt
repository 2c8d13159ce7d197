-- ===== src/Pages/Walk.antt =====
-- A client that follows the cursors from the first page sees every row once, in order.
use text.Mathlib.Text.{◌==◌ as str_eq}
use text.Mathlib.TextEquality.{eq_iff}
use mathlib.Core.List.{append_assoc}
use kubernetes_cost_analyzer.Common.{
  ℕ, zero, suc, ◌≤◌, ◌<◌, ◌-◌, ◌≡◌, ◌≢◌, inl, inr, refl, sym, ap, ◌∙◌, subst, Bool, true, false,
  Option, none, some, List, [], ◌∷◌, ◌++◌, map, length, ltb, All, ok, err, arith, if◌then◌else◌,
  Bool-cases, tests, length-append,
}
use kubernetes_cost_analyzer.Common.Int.{pos_part}
use kubernetes_cost_analyzer.Http.Requests.{AllocationsParams}
use kubernetes_cost_analyzer.Pages.{
  Cursor, Codec, decode_cursor, AllocationRow, Scanned, AllocationsPage, key,
}
use kubernetes_cost_analyzer.Pages.Cursors.{CodecLaws, decode_cursor-encode, encode_nonempty}
use kubernetes_cost_analyzer.Pages.Suffixes.{Division, cut_at, IsDescending, keep_below, All-last}
use kubernetes_cost_analyzer.Pages.Fetching.{Database, allocations, page_size}
use kubernetes_cost_analyzer.Pages.Paging.{
  page_size_bounds, after, Answers, Travels, page_of_last, page_of_more, allocations_page,
}

module _ {D E : Type 0} (codec : Codec E) (db : Database D E) where
  -- All rows from one page on; `none` if a page fails or the number of pages runs out.
  pub follow : ℕ → AllocationsParams Cursor → Option (List (AllocationRow D))
  follow zero p = none
  follow (suc n) p = elim (allocations codec db p) [
    | err _ ↦ none
    | ok page ↦
        if str_eq page.next_cursor ""
        then some page.rows
        else elim (decode_cursor codec page.next_cursor) [
          | err _ ↦ none
          | ok c ↦ elim (follow n (record p { cursor = some c })) [
            | none ↦ none
            | some rest ↦ some (page.rows ++ rest)
          ]
        ]
  ]

  map_cut :
      (zs : List (Scanned D)) (x : Scanned D) (rest : List (Scanned D))
      → map (λ s. s.row) (zs ++ x ∷ []) ++ map (λ s. s.row) rest ≡ map (λ s. s.row) (zs ++ x ∷ rest)
  map_cut [] x rest = refl
  map_cut (z ∷ zs) x rest = ap (λ t. z.row ∷ t) (map_cut zs x rest)

  -- More rows are left behind a cut that is not the end, and fewer than before it.
  rest_of_cut :
      (size : ℕ) (ys : List (Scanned D)) (c : Division (size - 1) ys)
      → ltb size (length ys) ≡ true
      → 1 ≤ size
      → (c.rest ≢ []) × (length c.rest < length ys)
  rest_of_cut size ys c longer low =
      let measured = ap length c.joined ∙ length-append c.front (c.last ∷ c.rest) in
      (λ e. absurd (omega (tests, measured, c.measured, ap length e)), omega (tests, measured))

  follow_last :
      (n : ℕ) (p : AllocationsParams Cursor) (rows : List (AllocationRow D))
      → allocations codec db p ≡ ok (record { rows = rows; next_cursor = "" })
      → follow (suc n) p ≡ some rows
  unfolding follow
  follow_last n p rows h = ground arith

  follow_more :
      (n : ℕ) (p : AllocationsParams Cursor) (page : AllocationsPage D) (c : Cursor)
      (rest : List (AllocationRow D))
      → allocations codec db p ≡ ok page
      → page.next_cursor ≢ ""
      → decode_cursor codec page.next_cursor ≡ ok c
      → follow n (record p { cursor = some c }) ≡ some rest
      → follow (suc n) p ≡ some (page.rows ++ rest)
  unfolding follow
  follow_more n p page c rest h more decoded ih =
      ground (arith, h, decoded, ih, eq_iff page.next_cursor "")

  -- The next cursor of a row that travels.
  cursor_back :
      (laws : CodecLaws codec) (s : Scanned D) (t : Travels codec db s)
      → (t.0.0 ≢ "") × (decode_cursor codec t.0.0 ≡ ok (key s))
  cursor_back laws s ((text, e), complete) = (
    encode_nonempty codec laws (key s) text e,
    decode_cursor-encode codec laws (key s) text e ∙ rw complete refl,
  )

  module _ (below : Cursor → Cursor → Bool) (p : AllocationsParams Cursor)
      (table : List (Scanned D)) (answers : Answers codec db below p table) where
    module _ (laws : CodecLaws codec)
        (descending : IsDescending (λ a b. below (key a) (key b)) table)
        (irreflexive : (c : Cursor) → below c c ≡ false)
        (travels : All (Travels codec db) table) where
      follow_cut :
          (n : ℕ) (cursor : Option Cursor) (front zs : List (Scanned D)) (x : Scanned D)
          (rest : List (Scanned D))
          → table ≡ front ++ x ∷ rest
          → after codec db below cursor table ≡ zs ++ x ∷ rest
          → rest ≢ []
          → pos_part (page_size p.limit) ≡ suc (length zs)
          → follow n (record p { cursor = some (key x) }) ≡ some (map (λ s. s.row) rest)
          → follow (suc n) (record p { cursor = cursor }) ≡ some (map (λ s. s.row) (zs ++ x ∷ rest))
      follow_cut n cursor front zs x rest whole left more size ih =
          let t =
            All-last (Travels codec db) front x rest
              (subst (All (Travels codec db)) whole travels) in
          let back = cursor_back laws x t in
          let page =
            rw (left, size) at (allocations_page codec db below p table answers cursor)
            ∙ page_of_more codec db zs x rest t.0.0 more t.0.1 in
          follow_more n (record p { cursor = cursor }) _ (key x) (map (λ s. s.row) rest) page back.0
            back.1 ih
          ∙ ap some (map_cut zs x rest)

      left_behind :
          (front : List (Scanned D)) (x : Scanned D) (rest : List (Scanned D))
          → table ≡ front ++ x ∷ rest
          → after codec db below (some (key x)) table ≡ rest
      left_behind front x rest whole = rw whole (
          keep_below (λ a b. below (key a) (key b)) (λ y. irreflexive (key y)) front x rest
            (subst (IsDescending (λ a b. below (key a) (key b))) whole descending))

      follow_from :
          (n : ℕ) (cursor : Option Cursor) (front ys : List (Scanned D))
          → table ≡ front ++ ys
          → after codec db below cursor table ≡ ys
          → length ys < n
          → follow n (record p { cursor = cursor }) ≡ some (map (λ s. s.row) ys)
      follow_from zero cursor front ys whole left h = absurd (omega arith)
      follow_from (suc n) cursor front ys whole left h =
          let size = pos_part (page_size p.limit) in
          let page = rw left at (allocations_page codec db below p table answers cursor) in
          elim (Bool-cases (ltb size (length ys))) [
            | inl longer ↦
                let bounds = page_size_bounds p.limit in
                let c = cut_at (size - 1) ys (omega (tests, bounds.0)) in
                let whole' =
                  whole
                  ∙ ap (λ t. front ++ t) c.joined
                  ∙ sym (append_assoc front c.front (c.last ∷ c.rest)) in
                let more = rest_of_cut size ys c longer bounds.0 in
                rw c.joined (
                  follow_cut n cursor (front ++ c.front) c.front c.last c.rest whole'
                    (left ∙ c.joined) more.0 (omega (arith, c.measured, bounds.0))
                    (follow_from n (some (key c.last)) (front ++ c.front ++ c.last ∷ []) c.rest
                      (whole' ∙ sym (append_assoc (front ++ c.front) (c.last ∷ []) c.rest))
                      (left_behind (front ++ c.front) c.last c.rest whole')
                      (omega (arith, more.1))))
            | inr fits ↦ follow_last n _ _ (page ∙ page_of_last codec db size ys (ground arith))
          ]

      -- Where JSON and base64 read back what they write and the database answers a request's conditions with
      -- the first rows, in strictly descending order of their keys, of those that the cursor leaves, and
      -- where every row has a window, a container and a key that can be encoded, a client that starts
      -- without a cursor and follows the cursors that it is given sees every row exactly once, in order. It
      -- comes to an end after at most as many pages as there are rows, and one.
      pub follow_all :
          (pages : ℕ)
          → length table < pages
          → follow pages (record p { cursor = none }) ≡ some (map (λ s. s.row) table)
      follow_all pages h = follow_from pages none [] table refl refl h
