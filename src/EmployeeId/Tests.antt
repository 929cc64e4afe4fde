-- ===== src/EmployeeId/Tests.antt =====
-- The theorems on src/employee-id.ts at concrete ids.
use estatemate_minmoe.Prelude.{some, none, ◌≡◌, refl, arith}
use estatemate_minmoe.Prelude.Text.{
  lit, eqt, to_lower, lower_unit, remove_all, is_space, trim, is_alnum, slice_last,
}
use estatemate_minmoe.EmployeeId.{
  Field, read_text, read_employee_id, employee_id_from_uuid, device_employee_no,
}
use estatemate_minmoe.EmployeeId.Laws.{
  IsEmployeeId, read_employee_id-IsEmployeeId, read_employee_id-employee_id_from_uuid,
  device_employee_no-IsEmployeeId, device_employee_no_suffix,
}

read_employee_id-IsEmployeeId_example : IsEmployeeId (lit "EMP07")
unfolding read_employee_id read_text trim is_space is_alnum
read_employee_id-IsEmployeeId_example =
    read_employee_id-IsEmployeeId (Field.string (lit " EMP07 ")) (lit "EMP07") refl

read_employee_id-employee_id_from_uuid_example :
    read_employee_id (Field.string (lit "0c1be04f4a9c47a28d0d3b7d5a1e0f"))
    ≡ record { value = some (lit "0c1be04f4a9c47a28d0d3b7d5a1e0f"); error = none }
unfolding employee_id_from_uuid eqt to_lower remove_all trim is_space is_alnum lower_unit
read_employee_id-employee_id_from_uuid_example =
    read_employee_id-employee_id_from_uuid (lit "a60c1be04f-4a9c-47a2-8d0d-3b7d5a1e0f")
      (lit "0c1be04f4a9c47a28d0d3b7d5a1e0f") refl

device_employee_no-IsEmployeeId_example :
    IsEmployeeId (device_employee_no (lit "R") (lit "4a9c47a2"))
unfolding is_alnum
device_employee_no-IsEmployeeId_example =
    device_employee_no-IsEmployeeId (lit "R") (lit "4a9c47a2") refl refl (omega arith)

device_employee_no_suffix_example :
    slice_last 8 (device_employee_no (lit "HOUSEHOLDMEMBEROFTHEESTATE") (lit "4a9c47a2"))
    ≡ lit "4a9c47a2"
device_employee_no_suffix_example =
    device_employee_no_suffix (lit "HOUSEHOLDMEMBEROFTHEESTATE") (lit "4a9c47a2") (omega arith)
