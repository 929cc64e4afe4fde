-- ===== src/DeviceSync/Counted.antt =====
-- The sums of `deviceSyncOverview` of src/device-sync.ts count the same cells, by person and by terminal.
use estatemate_minmoe.Prelude.{
  ℕ, ◌+◌, Bool, true, false, if◌then◌else◌, List, [], ◌∷◌, total, for_each, ◌≡◌, refl, sym, ap, ◌∙◌,
  arith,
}
use estatemate_minmoe.DeviceSync.{SyncDevice}
use estatemate_minmoe.DeviceSync.State.{SyncState, PersonState}
use estatemate_minmoe.DeviceSync.Overview.{
  OverviewPerson, Sums, no_sums, bucket_counted, totals_counted, cell_of, count_person,
  overview_totals, device_totals,
}

module _ {A : Type 0} where
  total-zero : (xs : List A) → total (λ x. 0) xs ≡ 0
  total-zero [] = refl
  total-zero (x ∷ xs) = omega (arith, total-zero xs)

  total-plus : (f g : A → ℕ) (xs : List A) → total (λ x. f x + g x) xs ≡ total f xs + total g xs
  total-plus f g [] = refl
  total-plus f g (x ∷ xs) = omega (arith, total-plus f g xs)

module _ {A B : Type 0} where
  -- A sum over rows of sums over columns is the sum over columns of the sums over rows.
  total-swap :
      (f : A → B → ℕ) (xs : List A) (ys : List B)
      → total (λ x. total (f x) ys) xs ≡ total (λ y. total (λ x. f x y) xs) ys
  total-swap f [] ys = sym (total-zero ys)
  total-swap f (x ∷ xs) ys =
      ap (λ n. total (f x) ys + n) (total-swap f xs ys)
      ∙ sym (total-plus (f x) (λ y. total (λ x. f x y) xs) ys)

module _ (states : List PersonState) (get : Sums → ℕ) (weight : SyncState → ℕ)
    (totals_add : (s : SyncState) (sums : Sums) → get (totals_counted s sums) ≡ get sums + weight s)
    (bucket_adds : (s : SyncState) (sums : Sums)
      → get (bucket_counted s sums) ≡ get sums + weight s) where
  person-total :
      (p : OverviewPerson) (devices : List SyncDevice) (sums : Sums)
      → get (count_person states p devices sums)
        ≡ get sums + total (λ d. weight (cell_of states p d)) devices
  person-total p [] sums = omega arith
  person-total p (d ∷ ds) sums = omega (
    arith,
    person-total p ds (totals_counted (cell_of states p d) sums),
    totals_add (cell_of states p d) sums,
  )

  all-total :
      (people : List OverviewPerson) (devices : List SyncDevice) (sums : Sums)
      → get (for_each (λ s p. count_person states p devices s) people sums)
        ≡ get sums + total (λ p. total (λ d. weight (cell_of states p d)) devices) people
  all-total [] devices sums = omega arith
  all-total (p ∷ ps) devices sums = omega (
    arith,
    all-total ps devices (count_person states p devices sums),
    person-total p devices sums,
  )

  device-total :
      (d : SyncDevice) (people : List OverviewPerson) (sums : Sums)
      → get (for_each (λ s p. bucket_counted (cell_of states p d) s) people sums)
        ≡ get sums + total (λ p. weight (cell_of states p d)) people
  device-total d [] sums = omega arith
  device-total d (p ∷ ps) sums = omega (
    arith,
    device-total d ps (bucket_counted (cell_of states p d) sums),
    bucket_adds (cell_of states p d) sums,
  )

  total-equal :
      (f g : SyncDevice → ℕ) (ds : List SyncDevice)
      → ((d : SyncDevice) → f d ≡ g d)
      → total f ds ≡ total g ds
  total-equal f g [] h = refl
  total-equal f g (d ∷ ds) h = omega (arith, h d, total-equal f g ds h)

  both-ways :
      (people : List OverviewPerson) (devices : List SyncDevice)
      → get no_sums ≡ 0
      → (get (overview_totals states people devices)
          ≡ total (λ p. total (λ d. weight (cell_of states p d)) devices) people)
        × (get (overview_totals states people devices)
            ≡ total (λ d. get (device_totals states people d)) devices)
  unfolding overview_totals device_totals
  both-ways people devices zero_sums =
      let across = all-total people devices no_sums in
      let swapped = total-swap (λ p d. weight (cell_of states p d)) people devices in
      let down =
        total-equal (λ d. total (λ p. weight (cell_of states p d)) people)
          (λ d. get (device_totals states people d)) devices
          (λ d. omega (arith, device-total d people no_sums)) in
      (omega (arith, across), omega (arith, across, swapped, down))

-- The states as the overview names them.
abbrev pub is_state : SyncState → SyncState → Bool
is_state SyncState.synced SyncState.synced = true
is_state SyncState.pending SyncState.pending = true
is_state SyncState.manual SyncState.manual = true
is_state SyncState.removed SyncState.removed = true
is_state SyncState.missing SyncState.missing = true
is_state _ _ = false

-- A count of the totals is the number of cells of the grid in the state, and the sum of the count over the
-- terminals.
abbrev pub Agrees :
    (Sums → ℕ) → SyncState → List PersonState → List OverviewPerson → List SyncDevice → Type 0
Agrees get state states people devices =
    (get (overview_totals states people devices)
      ≡ total (λ p. total (λ d. if is_state state (cell_of states p d) then 1 else 0) devices)
          people)
    × (get (overview_totals states people devices)
        ≡ total (λ d. get (device_totals states people d)) devices)

-- Each of the four counts of the overview (synced, pending, manual, missing) is the number of cells, a
-- person and a terminal, that are in that state; and it is the sum of the same count over the terminals.
pub overview_totals-device_totals :
    (states : List PersonState) (people : List OverviewPerson) (devices : List SyncDevice)
    → Agrees Sums.synced SyncState.synced states people devices
      × Agrees Sums.pending SyncState.pending states people devices
      × Agrees Sums.manual SyncState.manual states people devices
      × Agrees Sums.missing SyncState.missing states people devices
unfolding bucket_counted totals_counted
overview_totals-device_totals states people devices = (
  both-ways states Sums.synced (λ s. if is_state SyncState.synced s then 1 else 0)
      (λ s sums. ground arith) (λ s sums. ground arith) people devices refl,
  both-ways states Sums.pending (λ s. if is_state SyncState.pending s then 1 else 0)
      (λ s sums. ground arith) (λ s sums. ground arith) people devices refl,
  both-ways states Sums.manual (λ s. if is_state SyncState.manual s then 1 else 0)
      (λ s sums. ground arith) (λ s sums. ground arith) people devices refl,
  both-ways states Sums.missing (λ s. if is_state SyncState.missing s then 1 else 0)
      (λ s sums. ground arith) (λ s sums. ground arith) people devices refl,
)
