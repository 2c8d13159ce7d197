-- ===== src/Http/Params.antt =====
-- timeRange, filters and limitParam of internal/httpapi/params.go. Go's time package reads a timestamp:
-- a parameter, and so is the present.
pub use kubernetes_cost_analyzer.Clock.{day_span}
use Prim.Native.String.{String}
use text.Mathlib.Text.{◌==◌ as str_eq}
use kubernetes_cost_analyzer.Common.{
  ℕ, ◌*◌, Bool, true, false, not, ◌&&◌, ◌||◌, Option, none, some, ltb, if◌then◌else◌,
}
use kubernetes_cost_analyzer.Common.Int.{ℤ, pos, lt_ℤ, ◌-ℤ◌}
use kubernetes_cost_analyzer.Common.Text.{trim_space, chars, byte_length}
use kubernetes_cost_analyzer.Common.Numerals.{parse_int}
use kubernetes_cost_analyzer.Clock.{Time, Duration, hour, after, sub_time}
use kubernetes_cost_analyzer.Http.{
  Query, Checked, ◌>>=◌, pure, complain, not_a_timestamp, not_after_from, range_too_long,
  longer_than_name, not_a_boolean, not_a_capacity, not_an_integer, below_one, above_max,
}

abbrev pub max_range_days : ℕ
max_range_days = 400

abbrev pub default_range_hours : ℕ
default_range_hours = 24

-- Go's `time.Parse(time.RFC3339, s)`, in UTC.
abbrev pub ParseTime : Type 0
ParseTime = String → Option Time

abbrev pub zero_time : Time
zero_time = pos 0

-- The closure `parse`: the instant, and whether there is one.
unfoldable pub parse_bound : ParseTime → Query → String → Checked (Time × Bool)
parse_bound parse q key =
    let raw = trim_space (q key) in
    if str_eq raw "" then pure (zero_time, false) else elim (parse raw) [
      | none ↦ complain key not_a_timestamp (zero_time, false)
      | some t ↦ pure (t, true)
    ]

-- The bounds, by which of the two are given.
unfoldable pub chosen_range : Time → Duration → Time × Bool → Time × Bool → Time × Time
chosen_range now span (from, false) (to, false) = (now -ℤ span, now)
chosen_range now span (from, true) (to, false) = (from, now)
chosen_range now span (from, false) (to, true) = (to -ℤ span, to)
chosen_range now span (from, true) (to, true) = (from, to)

unfoldable pub checked_range : Bool → Time × Time → Checked (Time × Time)
checked_range given (from, to) =
    if not given
    then pure (from, to)
    else if not (after to from)
    then complain "to" not_after_from (from, to)
    else if lt_ℤ (pos (max_range_days * day_span)) (sub_time to from)
    then complain "from" (range_too_long (sub_time to from)) (from, to)
    else pure (from, to)

unfoldable pub time_range_default : ParseTime → Time → Query → Duration → Checked (Time × Time)
time_range_default parse now q span = do
  from ← parse_bound parse q "from"
  to ← parse_bound parse q "to"
  checked_range (from.1 || to.1) (chosen_range now span from to)

abbrev pub time_range : ParseTime → Time → Query → Checked (Time × Time)
time_range parse now q = time_range_default parse now q (pos (default_range_hours * hour))

-- `postgres.Filters`.
pub record Filters : Type 0 where
  pub cluster : String
  pub namespace : String
  pub team : String
  pub environment : String
  pub cost_centre : String
  pub workload_kind : String
  pub workload_name : String
  pub node : String
  pub instance_type : String
  pub capacity_type : String
  pub estimated_only : Bool

-- The closure `get`.
unfoldable pub get_name : Query → String → Checked String
get_name q key =
    let raw = trim_space (q key) in
    if str_eq raw ""
    then pure ""
    else if ltb 253 (byte_length (chars raw))
    then complain key longer_than_name ""
    else pure raw

-- `strconv.ParseBool`.
abbrev pub parse_bool : String → Option Bool
parse_bool s =
    if str_eq s "1"
      || str_eq s "t"
      || str_eq s "T"
      || str_eq s "TRUE"
      || str_eq s "true"
      || str_eq s "True"
    then some true
    else if str_eq s "0"
        || str_eq s "f"
        || str_eq s "F"
        || str_eq s "FALSE"
        || str_eq s "false"
        || str_eq s "False"
    then some false
    else none

unfoldable pub get_flag : Query → String → Checked Bool
get_flag q key =
    let raw = trim_space (q key) in
    if str_eq raw ""
    then pure false
    else elim (parse_bool raw) [ none ↦ complain key not_a_boolean false | some b ↦ pure b ]

unfoldable pub checked_capacity : Filters → Checked Filters
checked_capacity f =
    if not (str_eq f.capacity_type "")
      && not (str_eq f.capacity_type "spot")
      && not (str_eq f.capacity_type "on-demand")
    then complain "capacity_type" not_a_capacity f
    else pure f

unfoldable pub filters : Query → Checked Filters
filters q = do
  cluster ← get_name q "cluster"
  namespace ← get_name q "namespace"
  team ← get_name q "team"
  environment ← get_name q "environment"
  cost_centre ← get_name q "cost_centre"
  workload_kind ← get_name q "workload_kind"
  workload_name ← get_name q "workload_name"
  node ← get_name q "node"
  instance_type ← get_name q "instance_type"
  capacity_type ← get_name q "capacity_type"
  estimated_only ← get_flag q "estimated_only"
  checked_capacity (record {
    cluster = cluster;
    namespace = namespace;
    team = team;
    environment = environment;
    cost_centre = cost_centre;
    workload_kind = workload_kind;
    workload_name = workload_name;
    node = node;
    instance_type = instance_type;
    capacity_type = capacity_type;
    estimated_only = estimated_only;
  })

unfoldable pub limit_param : Query → String → ℤ → ℤ → Checked ℤ
limit_param q key default max =
    let raw = trim_space (q key) in
    if str_eq raw "" then pure default else elim (parse_int raw) [
      | none ↦ complain key not_an_integer default
      | some n ↦
          if lt_ℤ n (pos 1)
          then complain key below_one default
          else if lt_ℤ max n
          then complain key (above_max max) default
          else pure n
    ]
