-- ===== src/Pages/Tests.antt =====
-- A table of three rows read in pages of two, with cursors that are written as their container's name.
use Prim.Native.String.{String}
use text.Mathlib.Text.{◌==◌ as str_eq}
use kubernetes_cost_analyzer.Common.{
  ℕ, ◌≡◌, refl, Bool, false, ◌&&◌, none, some, List, [], ◌∷◌, map, Result, ok, err, ltb, arith, All,
  if◌then◌else◌,
}
use kubernetes_cost_analyzer.Common.Int.{ℤ, pos, eq_ℤ, eq_of_parts}
use kubernetes_cost_analyzer.Common.Sort.{keep}
use kubernetes_cost_analyzer.Http.Requests.{AllocationsParams}
use kubernetes_cost_analyzer.Pages.{
  Cursor, Codec, encode, decode_cursor, incomplete, Scanned, key, Condition, before_key,
}
use kubernetes_cost_analyzer.Pages.Cursors.{CodecLaws, is_incomplete, decode_cursor-encode}
use kubernetes_cost_analyzer.Pages.Fetching.{
  Database, allocations, conditions, filter_conditions, filter_values, page_of, page_size, take,
}
use kubernetes_cost_analyzer.Pages.Suffixes.{IsDescending}
use kubernetes_cost_analyzer.Pages.Paging.{Answers, Travels}
use kubernetes_cost_analyzer.Pages.Walk.{follow, follow_all}

page_code : Unit {0}
unfolding encode decode_cursor allocations conditions filter_conditions filter_values page_of
    page_size
page_code = tt

abbrev at : String → Cursor
at name = record { window_start = pos 1; pod_id = pos 1; container_name = name }

-- Only cursors of the one window and pod can be written.
abbrev marked : String → Result String String
marked String.[] = err "empty"
marked (String.◌∷◌ c s) = ok s

abbrev named : Codec String
named = record {
  marshal = λ c.
      if eq_ℤ c.window_start (pos 1) && eq_ℤ c.pod_id (pos 1)
      then ok c.container_name
      else err "other";
  unmarshal = λ raw. ok (at raw);
  to_base64 = λ raw. String.◌∷◌ "#" raw;
  from_base64 = marked;
}

named-laws : CodecLaws named
named-laws = record {
  read_base64 = λ raw. refl;
  read_json =
      λ c raw h. ground (arith, eq_of_parts c.window_start (pos 1), eq_of_parts c.pod_id (pos 1));
  nonempty = λ c raw h e. cc;
}

abbrev scanned : String → Scanned ℤ
scanned name = record {
  row = record {
    window_start = pos 1;
    window_end = pos 2;
    namespace = "shop";
    pod_name = "web";
    container = name;
    workload_kind = "";
    workload_name = "";
    node = "n1";
    team = "";
    cost_centre = "";
    environment = "";
    instance_type = "";
    capacity_type = "";
    zone = "";
    qos_class = "";
    cpu_millicores_requested = pos 0;
    cpu_millicores_used = pos 0;
    cpu_millicores_billable = pos 0;
    memory_bytes_requested = pos 0;
    memory_bytes_used = pos 0;
    memory_bytes_billable = pos 0;
    cpu_cost = pos 0;
    memory_cost = pos 0;
    total_cost = pos 0;
    rate_source = "";
  };
  pod_id = pos 1;
}

abbrev table : List (Scanned ℤ)
table = scanned "web" ∷ scanned "proxy" ∷ scanned "log" ∷ []

abbrev rank : String → ℕ
rank name =
    if str_eq name "web"
    then 3
    else if str_eq name "proxy"
    then 2
    else if str_eq name "log"
    then 1
    else 0

abbrev below : Cursor → Cursor → Bool
below a b = ltb (rank a.container_name) (rank b.container_name)

below-irreflexive : (c : Cursor) → below c c ≡ false
below-irreflexive c = ground arith

abbrev matching : List Condition → List (Scanned ℤ) → List (Scanned ℤ)
matching [] rows = rows
matching (before_key c ∷ cs) rows = keep (λ s. below (key s) c) (matching cs rows)
matching (_ ∷ cs) rows = matching cs rows

abbrev db : Database ℤ String
db = record { run = λ cs n. ok (take n (matching cs table)) }

abbrev everything : AllocationsParams Cursor
everything = record {
  from = pos 0;
  to = pos 9;
  filters = record {
    cluster = "";
    namespace = "";
    team = "";
    environment = "";
    cost_centre = "";
    workload_kind = "";
    workload_name = "";
    node = "";
    instance_type = "";
    capacity_type = "";
    estimated_only = false;
  };
  limit = pos 2;
  cursor = none;
}

db-Answers : Answers named db below everything table
unfolding Answers page_code
db-Answers none cs n h = ground arith
db-Answers (some c) cs n h = ground arith

first_page :
    allocations named db everything
    ≡ ok
        (record { rows = (scanned "web").row ∷ (scanned "proxy").row ∷ []; next_cursor = "#proxy" })
unfolding page_code
first_page = refl

encoded : encode named (at "web") ≡ ok "#web"
unfolding encode
encoded = refl

-- The three keys can be encoded.
travel : All (Travels named db) table
unfolding encode
travel = ((("#web", refl), refl), ((("#proxy", refl), refl), ((("#log", refl), refl), tt)))

descends : IsDescending (λ a b. below (key a) (key b)) table
descends = (((refl, refl), ((refl, refl), tt)), (((refl, refl), tt), (tt, tt)))

decode_cursor-encode_holds :
    decode_cursor named "#web"
    ≡ (if is_incomplete (at "web") then err incomplete else ok (at "web"))
decode_cursor-encode_holds = decode_cursor-encode named named-laws (at "web") "#web" encoded

follow_all_example : follow named db 4 everything ≡ some (map (λ s. s.row) table)
follow_all_example =
    follow_all named db below everything table db-Answers named-laws descends below-irreflexive
      travel 4 (omega arith)
