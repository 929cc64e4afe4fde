-- ===== src/Billing/Tests.antt =====
-- The theorems on payments of src/index.ts at two bills, and a run of the two routes.
use estatemate_minmoe.Prelude.{true, some, [], ◌∷◌, ◌≡◌, refl, map, arith}
use estatemate_minmoe.Prelude.Text.{lit}
use estatemate_minmoe.Hardware.{Key}
use estatemate_minmoe.Billing.{
  Bill, BillStatus, Db, Role, status_for, reconcile_bill, handle_payment, handle_review,
}
use estatemate_minmoe.Billing.Run.{
  IsSound, Reachable, begun, followed, pay, review, Reachable-IsSound,
}

abbrev bill : Key → BillStatus → Bill
bill id status = record {
  id = id;
  property_id = some 1;
  resident_id = 5;
  amount_minor = 500;
  currency = lit "NGN";
  due_date = 10;
  status = status;
  bill_type = lit "facility_fee";
  description = [];
}

abbrev books : Db
books = record { bills = bill 31 BillStatus.unpaid ∷ bill 32 BillStatus.void ∷ []; payments = [] }

-- The resident pays 300 of 500, and the cashier approves it.
abbrev after : Db
after =
    (handle_review (record { id = 9; role = Role.cashier }) 71 true
      (handle_payment 71 (record { id = 5; role = Role.resident })
        (record { bill_id = 31; amount_minor = 300 }) books).0).0

after_runs : map Bill.status after.bills ≡ BillStatus.partial ∷ BillStatus.void ∷ []
unfolding handle_payment handle_review reconcile_bill status_for
after_runs = refl

books-IsSound : IsSound (λ k. 500) books
unfolding status_for
books-IsSound = record { amounts = refl; ids = λ k. ground arith; agree = refl }

run : Reachable books after
unfolding handle_payment
run =
    followed
      (followed begun (
        pay 71 (record { id = 5; role = Role.resident })
          (record { bill_id = 31; amount_minor = 300 }) refl))
      (review (record { id = 9; role = Role.cashier }) 71 true)

Reachable-IsSound_example : IsSound (λ k. 500) after
Reachable-IsSound_example = Reachable-IsSound (λ k. 500) books after books-IsSound run
