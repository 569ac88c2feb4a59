-- ===== src/Gomega.antt =====
-- The matcher HaveFields of the tests (pkg/gomega/have_fields.go). reflect, mergo, gomega.Equal and
-- cmp.Diff are parameters; Merge is taken on values, without the maps and pointers that a merged
-- struct shares with the expected one.
use cloudflare_tunnel_operat.Base.{String, ◌<>◌, Bool, false, Option, none, some, if◌then◌else◌}
use cloudflare_tunnel_operat.Base.Exec.{Result, ok, err, panic}

-- A settable or unsettable reflect.Value, with `dst.Set`.
pub record Destination (V : Type 0) : Type 0 where
  pub value : V
  pub can_set : Bool

-- What reflection tells of a field: `is_time` is `typ == reflect.TypeOf(metav1.Time{})`, and
-- `time_is_zero` calls the method IsZero of the field Time.
pub record Reflection (K V : Type 0) : Type 0 where
  pub is_time : K → Bool
  pub time_is_zero : V → Bool

-- mergo.Transformers: for some types, what becomes of `dst`.
abbrev pub Transformers : Type 0 → Type 0 → Type 0
Transformers K V = K → Option (Destination V → V → V)

-- `K` is the fields of a struct and `V` their values; `Any` is the values of any type.
pub record Libraries (T Any K V : Type 0) : Type 0 where
  pub reflection : Reflection K V
  -- actual.(T)
  pub assert_type : Any → Option T
  -- mergo.Merge(&dst, src, mergo.WithTransformers(t)), with what it leaves in dst
  pub merge : Transformers K V → T → T → Result T
  -- gomega.Equal(expected).Match(actual)
  pub equal : T → Any → Result Bool
  -- cmp.Diff(actual, merged)
  pub diff : Any → T → String

pub record HaveFieldsMatcher (T : Type 0) : Type 0 where
  pub expected : T

unfoldable pub have_fields : {T : Type 0} → T → HaveFieldsMatcher T
have_fields e = record { expected = e }

module _ {K V : Type 0} (R : Reflection K V) where
  unfoldable pub set_zero_time : Destination V → V → V
  set_zero_time dst src =
      if dst.can_set then (if R.time_is_zero dst.value then src else dst.value) else dst.value

  unfoldable pub time_transformer : Transformers K V
  unfolding set_zero_time
  time_transformer k = if R.is_time k then some set_zero_time else none

abbrev panic_on_error : {T : Type 0} → Result T → Result T
panic_on_error (ok m) = ok m
panic_on_error (err e) = panic "failed to merge"
panic_on_error (panic s) = panic s

module _ {T Any K V : Type 0} (L : Libraries T Any K V) where
  unfoldable pub merged : HaveFieldsMatcher T → T → Result T
  unfolding time_transformer
  merged a actual = panic_on_error (L.merge (time_transformer L.reflection) a.expected actual)

  equal_to : Result T → Any → Result Bool
  equal_to (ok m) actual = L.equal m actual
  equal_to (err e) actual = err e
  equal_to (panic s) actual = panic s

  unfoldable pub match_type : HaveFieldsMatcher T → Option T → Any → Result Bool
  unfolding equal_to merged
  match_type a none actual = ok false
  match_type a (some t) actual = equal_to (merged a t) actual

  unfoldable pub matches : HaveFieldsMatcher T → Any → Result Bool
  unfolding match_type
  matches a actual = match_type a (L.assert_type actual) actual

  diff_to : Result T → Any → Result String
  diff_to (ok m) actual = ok ("diff: \n" <> L.diff actual m)
  diff_to (err e) actual = err e
  diff_to (panic s) actual = panic s

  describe : HaveFieldsMatcher T → Option T → Any → Result String
  unfolding diff_to merged
  describe a none actual = ok "Type assertion failed"
  describe a (some t) actual = diff_to (merged a t) actual

  unfoldable pub failure_message : HaveFieldsMatcher T → Any → Result String
  unfolding describe
  failure_message a actual = describe a (L.assert_type actual) actual

  unfoldable pub negated_failure_message : HaveFieldsMatcher T → Any → Result String
  unfolding failure_message
  negated_failure_message a actual = failure_message a actual
