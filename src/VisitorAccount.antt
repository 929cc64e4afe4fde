-- ===== src/VisitorAccount.antt =====
-- src/visitor-account.ts: the values of a visitor account. An `unknown` is `none` for null and
-- undefined, and otherwise the text that `String(value)` gives. Error texts are data.
pub mod Limits
pub mod Tests
use estatemate_minmoe.Prelude.{
  ℕ, ◌+◌, ◌*◌, Bool, true, false, not, ◌&&◌, ◌||◌, Option, none, some, List, [], ◌∷◌, ◌++◌, map,
  leb, ltb, ◌==◌, if◌then◌else◌, length, all, min, max, value_or,
}
use estatemate_minmoe.Prelude.Text.{Text, lit, eqt, includes, trim, to_lower, is_digit, number}

abbrev pub visit_times_min : ℕ
visit_times_min = 1

abbrev pub visit_times_max : ℕ
visit_times_max = 10

abbrev pub validity_min_days : ℕ
validity_min_days = 1

abbrev pub validity_max_ceiling_days : ℕ
validity_max_ceiling_days = 30

abbrev pub default_validity_days : ℕ
default_validity_days = 1

abbrev pub default_max_validity_days : ℕ
default_max_validity_days = 7

abbrev pub purpose_other_max : ℕ
purpose_other_max = 120

abbrev pub remark_max : ℕ
remark_max = 500

abbrev pub day_ms : ℕ
day_ms = 24 * 60 * 60 * 1000

pub data PersonType : Type 0 where
  visitor normal : PersonType

abbrev pub person_type_text : PersonType → Text
person_type_text visitor = lit "visitor"
person_type_text normal = lit "normal"

abbrev pub purpose_ids : List Text
purpose_ids =
    lit "family_social"
    ∷ lit "delivery"
    ∷ lit "service_repair"
    ∷ lit "business"
    ∷ lit "domestic_staff"
    ∷ lit "event"
    ∷ lit "other"
    ∷ []

pub data ReadError : Type 0 where
  unknown_person_type visit_times_not_whole visit_times_out_of_range : ReadError
  unknown_purpose purpose_not_described purpose_too_long remark_too_long : ReadError

pub record ReadResult {ℓ} (A : Type ℓ) : Type ℓ where
  pub value : A
  pub error : Option ReadError

abbrev pub accepted {ℓ} : {A : Type ℓ} → A → ReadResult A
accepted a = record { value = a; error = none }

abbrev pub refused {ℓ} : {A : Type ℓ} → A → ReadError → ReadResult A
refused a e = record { value = a; error = some e }

-- `trimmed || null`
abbrev pub nonempty : Text → Option Text
nonempty [] = none
nonempty (c ∷ s) = some (c ∷ s)

unfoldable pub text : Option Text → Option Text
text none = none
text (some s) = nonempty (trim s)

abbrev pub lowered : Option Text → Option Text
lowered none = none
lowered (some s) = some (to_lower s)

person_type_of : PersonType → Text → ReadResult PersonType
person_type_of fallback requested =
    if eqt requested (lit "visitor")
    then accepted visitor
    else if eqt requested (lit "normal")
    then accepted normal
    else refused fallback unknown_person_type

-- `if (!requested)` also takes the empty text, which lower case never makes of a nonempty one.
unfoldable pub read_visitor_person_type : Option Text → PersonType → ReadResult PersonType
unfolding person_type_of
read_visitor_person_type value fallback = elim (lowered (text value)) [
  | none ↦ accepted fallback
  | some requested ↦ person_type_of fallback requested
]

-- `/^\d{1,3}$/`
abbrev pub is_short_number : Text → Bool
is_short_number raw = leb 1 (length raw) && leb (length raw) 3 && all is_digit raw

visit_times_of : Text → ReadResult ℕ
visit_times_of raw =
    if not (is_short_number raw)
    then refused visit_times_min visit_times_not_whole
    else (let times = number raw in
        if ltb times visit_times_min || ltb visit_times_max times
        then refused visit_times_min visit_times_out_of_range
        else accepted times)

unfoldable pub read_visit_times : Option Text → ReadResult ℕ
unfolding visit_times_of
read_visit_times value = elim (text value) [
  | none ↦ accepted visit_times_min
  | some raw ↦ visit_times_of raw
]

pub record Purpose : Type 0 where
  pub purpose : Option Text
  pub purpose_other : Option Text

abbrev pub no_purpose : Purpose
no_purpose = record { purpose = none; purpose_other = none }

described : Option Text → ReadResult Purpose
described none = refused no_purpose purpose_not_described
described (some typed) =
    if ltb purpose_other_max (length typed)
    then refused no_purpose purpose_too_long
    else accepted (record { purpose = some (lit "other"); purpose_other = some typed })

purpose_of : Text → Option Text → ReadResult Purpose
unfolding described
purpose_of purpose other =
    if not (includes purpose_ids purpose)
    then refused no_purpose unknown_purpose
    else if not (eqt purpose (lit "other"))
    then accepted (record { purpose = some purpose; purpose_other = none })
    else described (text other)

unfoldable pub read_visitor_purpose : Option Text → Option Text → ReadResult Purpose
unfolding purpose_of
read_visitor_purpose value other = elim (lowered (text value)) [
  | none ↦ accepted no_purpose
  | some purpose ↦ purpose_of purpose other
]

unfoldable pub read_visitor_remark : Option Text → ReadResult (Option Text)
read_visitor_remark value = elim (text value) [
  | none ↦ accepted none
  | some remark ↦
      if ltb remark_max (length remark)
      then refused none remark_too_long
      else accepted (some remark)
]

validity_days_of : ℕ → ℕ → ℕ → Text → ℕ
validity_days_of fallback lo hi raw =
    if not (is_short_number raw) then fallback else min hi (max lo (number raw))

unfoldable pub read_validity_days : Option Text → ℕ → ℕ → ℕ → ℕ
unfolding validity_days_of
read_validity_days value fallback lo hi = elim (text value) [
  | none ↦ fallback
  | some raw ↦ validity_days_of fallback lo hi raw
]

unfoldable pub read_visitor_default_validity_days : Option Text → ℕ
read_visitor_default_validity_days value =
    read_validity_days value default_validity_days validity_min_days validity_max_ceiling_days

unfoldable pub read_visitor_max_validity_days : Option Text → ℕ → ℕ
read_visitor_max_validity_days value default_days =
    read_validity_days value (max default_max_validity_days default_days)
      (max validity_min_days default_days) validity_max_ceiling_days

abbrev pub validity_days_to_ms : ℕ → ℕ
validity_days_to_ms days = days * day_ms

-- `untilMs - fromMs <= …`, which a negative length satisfies.
unfoldable pub within_visitor_validity : ℕ → ℕ → ℕ → Bool
within_visitor_validity from_ms until_ms max_days =
    leb until_ms (from_ms + validity_days_to_ms max_days + 60_000)
