-- ===== src/Examples/Matchers.antt =====
-- HaveFields on structs of a name and a time.
use cloudflare_tunnel_operat.Base.{
  String, ◌≡◌, refl, Bool, true, false, ◌&&◌, Option, none, some, ◌==◌, if◌then◌else◌,
}
use cloudflare_tunnel_operat.Base.Exec.{Result, ok, err, panic, other}
use cloudflare_tunnel_operat.Gomega.{
  Destination, Libraries, Transformers, have_fields, matches, match_type, merged, time_transformer,
  set_zero_time,
}

record Named : Type 0 where
  name : String
  time : String

abbrev filled_by : Option (Destination String → String → String) → String → String → String
filled_by none d s = if d == "" then s else d
filled_by (some f) d s = f (record { value = d; can_set = true }) s

-- A struct with the name "broken" cannot be merged. The time is the field `true`.
abbrev merge : Transformers Bool String → Named → Named → Result Named
merge t d s =
    if d.name == "broken"
    then err (other "unmergeable")
    else ok (record {
      name = filled_by (t false) d.name s.name;
      time = filled_by (t true) d.time s.time;
    })

abbrev equal : Named → Option Named → Result Bool
equal m none = ok false
equal m (some t) = ok (m.name == t.name && m.time == t.time)

-- A value of another type is `none`.
abbrev libraries : Libraries Named (Option Named) Bool String
libraries = record {
  reflection = record { is_time = λ k. k; time_is_zero = λ s. s == "0001-01-01" };
  assert_type = λ a. a;
  merge = merge;
  equal = equal;
  diff = λ a m. m.name;
}

abbrev expected : String → Named
expected name = record { name = name; time = "0001-01-01" }

abbrev actual : Named
actual = record { name = "web"; time = "2025-11-01" }

zero_time_fits : matches libraries (have_fields (expected "web")) (some actual) ≡ ok true
unfolding matches match_type merged have_fields time_transformer set_zero_time
zero_time_fits = refl

other_name_fails : matches libraries (have_fields (expected "db")) (some actual) ≡ ok false
unfolding matches match_type merged have_fields time_transformer set_zero_time
other_name_fails = refl

merge_error_panics :
    matches libraries (have_fields (expected "broken")) (some actual) ≡ panic "failed to merge"
unfolding matches match_type merged have_fields time_transformer set_zero_time
merge_error_panics = refl
