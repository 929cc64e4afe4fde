-- ===== src/Visitor/Sweep/Released.antt =====
-- What the sweep of src/index.ts does to the passes themselves.
use estatemate_minmoe.Prelude.{
  ℕ, Bool, ◌&&◌, Option, none, some, List, [], ◌∷◌, map, leb, if◌then◌else◌, length, select, update,
  ◌≡◌, refl, ◌∙◌, inl, inr, arith, Bool-cases,
}
use estatemate_minmoe.Prelude.Text.{Text, eqt}
use estatemate_minmoe.Hardware.{Key, is_enabled}
use estatemate_minmoe.Visitor.Tables.{Pass, PassStatus, Db, is_active}
use estatemate_minmoe.Visitor.Accounts.{
  mark_removed, mark_removal_queued, remove_credential, remove_with, queue_visitor_device_removals,
}
use estatemate_minmoe.Visitor.Sweep.{
  has_closed, release_all, release_reason, expire, release_expired_visitor_device_accounts,
}

-- What the gate, the portal and the audit read of a pass.
abbrev pub kept : Pass → Key × PassStatus × ℕ
kept p = (p.id, p.status, p.valid_until)

map-update {ℓ κ} :
    {A : Type ℓ} {B : Type κ} (g : A → B) (p : A → Bool) (f : A → A) (xs : List A)
    → ((x : A) → g (f x) ≡ g x)
    → map g (update p f xs) ≡ map g xs
map-update g p f [] h = refl
map-update g p f (x ∷ xs) h = ground (arith, h x, map-update g p f xs h)

module _ (uuid : ℕ → Key) (now : ℕ) where
  kept-remove_credential :
      (db : Db) (p : Pass) (reason credential : Text)
      → map kept (remove_credential uuid now db p reason credential).0.passes ≡ map kept db.passes
  unfolding remove_credential
  kept-remove_credential db p reason credential =
      elim (Bool-cases (leb (length (select is_enabled db.devices)) 0)) [
        | inl h ↦ rw h (unfold mark_removed in map-update kept _ _ db.passes (λ q. refl))
        | inr h ↦ rw h (unfold mark_removal_queued in map-update kept _ _ db.passes (λ q. refl))
      ]

  kept-remove_with :
      (db : Db) (p : Pass) (reason : Text) (o : Option Text)
      → map kept (remove_with uuid now db p reason o).0.passes ≡ map kept db.passes
  unfolding remove_with
  kept-remove_with db p reason none = refl
  kept-remove_with db p reason (some c) = elim (Bool-cases (eqt c [])) [
    | inl blank ↦ rw blank
    | inr filled ↦ rw filled (kept-remove_credential db p reason c)
  ]

  kept-removals :
      (db : Db) (p : Pass) (reason : Text)
      → map kept (queue_visitor_device_removals uuid now db p reason).0.passes ≡ map kept db.passes
  unfolding queue_visitor_device_removals
  kept-removals db p reason = kept-remove_with db p reason p.credential_number

  kept-release_all :
      (ps : List Pass) (db : Db)
      → map kept (release_all uuid now db ps).0.passes ≡ map kept db.passes
  unfolding release_all
  kept-release_all [] db = refl
  kept-release_all (p ∷ ps) db =
      kept-release_all ps (queue_visitor_device_removals uuid now db p (release_reason now p)).0
      ∙ kept-removals db p (release_reason now p)

-- The status that a pass should have at `now`: an active one whose window has closed is expired.
abbrev pub expired_now : ℕ → Pass → Key × PassStatus × ℕ
expired_now now p = (
  p.id,
  (if is_active p.status && has_closed now p then PassStatus.expired else p.status),
  p.valid_until,
)

kept-expire :
    (now : ℕ) (passes : List Pass) → map kept (expire now passes) ≡ map (expired_now now) passes
kept-expire now [] = refl
kept-expire now (p ∷ ps) = ground (arith, kept-expire now ps)

-- The sweep keeps every pass, with its window, in its place. It changes the status of exactly the
-- active passes whose window has closed, which become expired; a visitor who is inside, or whose
-- pass is pending, checked out or revoked, keeps that status.
pub kept-release :
    (uuid : ℕ → Key) (now : ℕ) (db : Db)
    → map kept (release_expired_visitor_device_accounts uuid now db).0.passes
      ≡ map (expired_now now) db.passes
unfolding release_expired_visitor_device_accounts
kept-release uuid now db = kept-release_all uuid now _ _ ∙ kept-expire now db.passes
