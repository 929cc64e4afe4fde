-- ===== src/EmployeeId/Laws.antt =====
-- What every Employee ID satisfies, however it was made.
use mathlib.Core.List.{reverse, reverse-cons, reverse-reverse}
use estatemate_minmoe.Prelude.{
  ℕ, false, none, refl, ap, ◌∙◌, ◌+◌, ◌-◌, ◌≤◌, ◌<◌, true, some, [], ◌∷◌, ◌++◌, leb, length, all,
  take, ◌≡◌, inl, inr, arith, Bool-cases, length-append, length-take, length-drop, all-append,
  all-take, all-drop, drop-length-append,
}
use estatemate_minmoe.Prelude.Text.{
  Text, is_digit, is_space, trim_start, trim, to_lower, remove_all, is_alnum, slice_last,
}
use estatemate_minmoe.EmployeeId.{
  Field, read_text, read_employee_id, employee_id_from_uuid, device_employee_no,
}

-- What a terminal accepts within the limit of the business: 1 to 30 letters and digits.
abbrev pub IsEmployeeId : Text → Type 0
IsEmployeeId s = (0 < length s) × (length s ≤ 30) × (all is_alnum s ≡ true)

read_text-IsEmployeeId : (s t : Text) → (read_text s).value ≡ some t → IsEmployeeId t
unfolding read_text
read_text-IsEmployeeId [] t h = cc
read_text-IsEmployeeId (c ∷ s) t h = ground arith

-- A supplied Employee ID that is accepted has 1 to 30 characters, all letters or digits.
pub read_employee_id-IsEmployeeId :
    (field : Field) (t : Text) → (read_employee_id field).value ≡ some t → IsEmployeeId t
unfolding read_employee_id
read_employee_id-IsEmployeeId (Field.string s) t h = read_text-IsEmployeeId (trim s) t h
read_employee_id-IsEmployeeId (Field.number s) t h = read_text-IsEmployeeId (trim s) t h
read_employee_id-IsEmployeeId Field.missing t h = cc
read_employee_id-IsEmployeeId Field.null t h = cc
read_employee_id-IsEmployeeId Field.other t h = cc

length-slice_last : (n : ℕ) (s : Text) → length (slice_last n s) ≤ n
length-slice_last n s = omega (arith, length-drop (length s - n) s)

slice_last_pos : (n : ℕ) (s : Text) → 0 < n → 0 < length s → 0 < length (slice_last n s)
slice_last_pos n s h k = omega (arith, length-drop (length s - n) s)

slice_last-IsEmployeeId :
    (s : Text) → 0 < length s → all is_alnum s ≡ true → IsEmployeeId (slice_last 30 s)
slice_last-IsEmployeeId s pos h =
    (slice_last_pos 30 s (omega arith) pos, length-slice_last 30 s, all-drop is_alnum _ s h)

append-IsEmployeeId :
    (s t : Text)
    → all is_alnum s ≡ true
    → all is_alnum t ≡ true
    → 0 < length t
    → length s + length t ≤ 30
    → IsEmployeeId (s ++ t)
append-IsEmployeeId s t hs ht pos fits = (
  omega (arith, length-append s t),
  omega (arith, length-append s t),
  all-append is_alnum s t hs ht,
)

slice_last-append : (s t : Text) → slice_last (length t) (s ++ t) ≡ t
slice_last-append s t =
    let front : length (s ++ t) - length t ≡ length s = omega (arith, length-append s t) in
    rw front (drop-length-append s t)

employee_id_from_uuid-IsEmployeeId :
    (id t : Text) → employee_id_from_uuid id ≡ some t → IsEmployeeId t
unfolding employee_id_from_uuid
employee_id_from_uuid-IsEmployeeId id t h =
    ground (arith, slice_last-IsEmployeeId (to_lower (remove_all b'-' (trim id))))

alnum_lem : (c : ℕ) → is_alnum c ≡ true → is_space c ≡ false
unfolding is_alnum is_digit is_space
alnum_lem c h = ground arith

trim_start-alnum : (s : Text) → all is_alnum s ≡ true → trim_start s ≡ s
unfolding trim_start
trim_start-alnum [] h = refl
trim_start-alnum (c ∷ s) h = ground (arith, alnum_lem c)

all-reverse : (s : Text) → all is_alnum s ≡ true → all is_alnum (reverse s) ≡ true
all-reverse [] h = refl
all-reverse (c ∷ s) h =
    ap (all is_alnum) (reverse-cons c s)
    ∙ all-append is_alnum (reverse s) (c ∷ []) (all-reverse s (ground arith)) (ground arith)

trim-alnum : (s : Text) → all is_alnum s ≡ true → trim s ≡ s
unfolding trim
trim-alnum s h =
    rw (trim_start-alnum s h, trim_start-alnum (reverse s) (all-reverse s h)) (reverse-reverse s)

read_text_accepts :
    (s : Text) → IsEmployeeId s → read_text s ≡ record { value = some s; error = none }
unfolding read_text
read_text_accepts [] h = grind arith
read_text_accepts (c ∷ s) (pos, fits, h) = ground arith

-- An Employee ID derived from a UUID is one that the reader accepts, as it stands and without an error.
pub read_employee_id-employee_id_from_uuid :
    (id t : Text)
    → employee_id_from_uuid id ≡ some t
    → read_employee_id (Field.string t) ≡ record { value = some t; error = none }
unfolding read_employee_id
read_employee_id-employee_id_from_uuid id t h =
    let shape = employee_id_from_uuid-IsEmployeeId id t h in
    ap read_text (trim-alnum t shape.2) ∙ read_text_accepts t shape

-- The employee number sent to a terminal is one that it accepts, when the prefix and the identifier are
-- letters and digits and the identifier is not empty.
pub device_employee_no-IsEmployeeId :
    (prefix identifier : Text)
    → all is_alnum prefix ≡ true
    → all is_alnum identifier ≡ true
    → 0 < length identifier
    → IsEmployeeId (device_employee_no prefix identifier)
unfolding device_employee_no
device_employee_no-IsEmployeeId p i hp hi pos = elim (Bool-cases (leb (length (p ++ i)) 30)) [
  | inl short ↦ rw short (append-IsEmployeeId p i hp hi pos (ground (arith, length-append p i)))
  | inr long ↦ elim (Bool-cases (leb (length i + 1) 30)) [
    | inl room ↦
        rw (long, room)
          (append-IsEmployeeId (take (30 - length i) p) i (all-take is_alnum _ p hp) hi pos
            (ground (arith, length-take (30 - length i) p)))
    | inr full ↦ rw (long, full) (slice_last-IsEmployeeId i pos hi)
  ]
]

-- An identifier of at most 30 characters survives whole: whatever the prefix, it is the end of the
-- employee number.
pub device_employee_no_suffix :
    (prefix identifier : Text)
    → length identifier ≤ 30
    → slice_last (length identifier) (device_employee_no prefix identifier) ≡ identifier
unfolding device_employee_no
device_employee_no_suffix p i h = elim (Bool-cases (leb (length (p ++ i)) 30)) [
  | inl short ↦ rw short (slice_last-append p i)
  | inr long ↦ elim (Bool-cases (leb (length i + 1) 30)) [
    | inl room ↦ rw (long, room) (slice_last-append (take (30 - length i) p) i)
    | inr full ↦
        rw (long, full)
          (let all_of_it : length i - 30 ≡ 0 = omega arith in rw all_of_it (slice_last-append [] i))
  ]
]
