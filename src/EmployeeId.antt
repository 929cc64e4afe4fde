-- ===== src/EmployeeId.antt =====
-- src/employee-id.ts: the Employee ID, the number by which a terminal knows a person.
pub mod Laws
pub mod Tests
use estatemate_minmoe.Prelude.{
  ℕ, ◌+◌, ◌-◌, Bool, true, false, not, ◌&&◌, ◌||◌, Option, none, some, List, [], ◌∷◌, ◌++◌, leb,
  ltb, if◌then◌else◌, length, all, take,
}
use estatemate_minmoe.Prelude.Text.{Text, eqt, trim, to_lower, is_alnum, remove_all, slice_last}

abbrev pub employee_id_max : ℕ
employee_id_max = 30

-- `/^[A-Za-z0-9]+$/`
abbrev pub is_employee_id : Text → Bool
is_employee_id s = leb 1 (length s) && all is_alnum s

-- The `unknown` that a request body may hold in a field, as far as the reader tells them apart. A
-- number comes with its printed form.
pub data Field : Type 0 where
  missing null : Field
  string : Text → Field
  number : Text → Field
  other : Field

pub data EmployeeIdError : Type 0 where
  not_text : EmployeeIdError
  too_long : ℕ → EmployeeIdError
  bad_characters : EmployeeIdError

pub record EmployeeIdReading : Type 0 where
  pub value : Option Text
  pub error : Option EmployeeIdError

read_text : Text → EmployeeIdReading
read_text [] = record { value = none; error = none }
read_text (c ∷ s) =
    if ltb employee_id_max (length (c ∷ s))
    then record { value = none; error = some (too_long (length (c ∷ s))) }
    else if not (is_employee_id (c ∷ s))
    then record { value = none; error = some bad_characters }
    else record { value = some (c ∷ s); error = none }

unfoldable pub read_employee_id : Field → EmployeeIdReading
unfolding read_text
read_employee_id missing = record { value = none; error = none }
read_employee_id null = record { value = none; error = none }
read_employee_id (string s) = read_text (trim s)
read_employee_id (number s) = read_text (trim s)
read_employee_id other = record { value = none; error = some not_text }

unfoldable pub employee_id_from_uuid : Text → Option Text
employee_id_from_uuid id =
    let compact = to_lower (remove_all b'-' (trim id)) in
    if eqt compact [] || ltb 36 (length compact)
    then none
    else if not (is_employee_id compact)
    then none
    else some (slice_last employee_id_max compact)

unfoldable pub device_employee_no : Text → Text → Text
device_employee_no prefix identifier =
    let composed = prefix ++ identifier in
    if leb (length composed) employee_id_max
    then composed
    else if leb (length identifier + 1) employee_id_max
    then take (employee_id_max - length identifier) prefix ++ identifier
    else slice_last employee_id_max identifier
