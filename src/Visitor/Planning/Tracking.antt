-- ===== src/Visitor/Planning/Tracking.antt =====
-- What one statement of the prepared batch, and the batch, may make of the row that the loop over the
-- devices has found for one of them.
use estatemate_minmoe.Prelude.{
  ℕ, Bool, true, false, Option, none, some, List, [], ◌∷◌, ◌++◌, ◌==◌, if◌then◌else◌, last_of,
  last_of-append, last_of-update, ◌≡◌, ◌≢◌, refl, inl, inr, arith, All, Bool-cases, ==_refl,
}
use estatemate_minmoe.Prelude.Text.{Text}
use estatemate_minmoe.Hardware.{Key, OperationStatus, is_failed}
use estatemate_minmoe.Visitor.Tables.{VisitorOperation, Operation}
use estatemate_minmoe.Visitor.Planning.{
  Statement, insert, retry, refresh, retried, refreshed, execute, batch, Decision, leave, create,
  refresh_stale, is_current,
}

-- What the loop relies on in its decision for one device.
pub record DecidesWell (payload : Text) (decide : Option Operation → Decision) : Type 0 where
  pub creates : decide none ≡ create
  pub settles :
      (r : Operation)
      → r.payload_json ≡ payload
      → is_failed r.status ≡ false
      → decide (some r) ≡ leave
  pub left_is_live : (r : Operation) → decide (some r) ≡ leave → is_failed r.status ≡ false
  pub stale_is_live : (r : Operation) → decide (some r) ≡ refresh_stale → is_failed r.status ≡ false
  pub finds : (r : Operation) → decide (some r) ≢ create

module _ (now : ℕ) (pass : Key) (kind : VisitorOperation) (payload : Text)
    (decide : Option Operation → Decision) (w : DecidesWell payload decide) where
  abbrev pub current : Key → List Operation → Option Operation
  current k operations = last_of (is_current pass kind k) operations

  abbrev pub CoveredBy : Option Operation → Type 0
  CoveredBy none = ⊥
  CoveredBy (some r) = decide (some r) ≡ leave

  -- What a statement may make of a row.
  pub record Better (r r' : Operation) : Type 0 where
    pub same_id : r'.id ≡ r.id
    pub live : is_failed r.status ≡ false → is_failed r'.status ≡ false
    pub settled : decide (some r) ≡ leave → decide (some r') ≡ leave

  abbrev pub Tracks : Option Operation → Option Operation → Type 0
  Tracks none o = Unit
  Tracks (some r) none = ⊥
  Tracks (some r) (some r') = Better r r'

  module _ (existing : List Operation) where
    abbrev pub Allowed : Statement → Type 0
    Allowed (insert row) =
        (row.payload_json ≡ payload)
        × (is_failed row.status ≡ false)
        × (current row.device_id existing ≡ none)
    Allowed (retry id p status) = (p ≡ payload) × (is_failed status ≡ false)
    Allowed (refresh id p) = p ≡ payload

    Better-retried :
        (r r' : Operation) (c : Bool) (status : OperationStatus)
        → is_failed status ≡ false
        → Better r r'
        → Better r (if c then retried payload status now r' else r')
    Better-retried r r' true status live b = record {
      same_id = b.same_id;
      live = λ _. live;
      settled = λ _. w.settles (retried payload status now r') refl live;
    }
    Better-retried r r' false status live b = b

    Better-refreshed :
        (r r' : Operation) (c : Bool)
        → Better r r'
        → Better r (if c then refreshed payload now r' else r')
    Better-refreshed r r' true b = record {
      same_id = b.same_id;
      live = b.live;
      settled = λ h. w.settles (refreshed payload now r') refl (w.left_is_live r' (b.settled h));
    }
    Better-refreshed r r' false b = b

    Better-refl : (r : Operation) → Better r r
    Better-refl r = record { same_id = refl; live = λ h. h; settled = λ h. h }

    abbrev pub updated :
        (Operation → Bool) → (Operation → Operation) → Option Operation → Option Operation
    updated q f o = elim o [ none ↦ none | some x ↦ some (if q x then f x else x) ]

    Tracks-updated :
        (o o' : Option Operation) (q : Operation → Bool) (f : Operation → Operation)
        → ((r r' : Operation) (c : Bool) → Better r r' → Better r (if c then f r' else r'))
        → Tracks o o'
        → Tracks o (updated q f o')
    Tracks-updated none o' q f h t = tt
    Tracks-updated (some r) none q f h t = t
    Tracks-updated (some r) (some r') q f h t = h r r' (q r') t

    CoveredBy-updated :
        (o : Option Operation) (q : Operation → Bool) (f : Operation → Operation)
        → ((r r' : Operation) (c : Bool) → Better r r' → Better r (if c then f r' else r'))
        → CoveredBy o
        → CoveredBy (updated q f o)
    CoveredBy-updated none q f h t = t
    CoveredBy-updated (some r) q f h t = (h r r (q r) (Better-refl r)).settled t

    Tracks-insert :
        (k : Key) (row : Operation) (o : Option Operation)
        → current row.device_id existing ≡ none
        → Tracks (current k existing) o
        → Tracks (current k existing) (if is_current pass kind k row then some row else o)
    Tracks-insert k row o fresh t = elim (Bool-cases (is_current pass kind k row)) [
      | inl here ↦
          let same : row.device_id ≡ k = ground arith in
          let fresh' : current k existing ≡ none = rw (← same) fresh in rw fresh' tt
      | inr elsewhere ↦ rw elsewhere t
    ]

    CoveredBy-insert :
        (k : Key) (row : Operation) (o : Option Operation)
        → row.payload_json ≡ payload
        → is_failed row.status ≡ false
        → CoveredBy o
        → CoveredBy (if is_current pass kind k row then some row else o)
    CoveredBy-insert k row o same live t = elim (Bool-cases (is_current pass kind k row)) [
      | inl here ↦ rw here (w.settles row same live)
      | inr elsewhere ↦ rw elsewhere t
    ]

    execute-Tracks :
        (s : Statement) (k : Key) (operations : List Operation)
        → Allowed s
        → Tracks (current k existing) (current k operations)
        → Tracks (current k existing) (current k (execute now s operations))
    unfolding execute
    execute-Tracks (insert row) k operations (_, _, fresh) t =
        rw last_of-append (Tracks-insert k row _ fresh t)
    execute-Tracks (retry id p status) k operations (same, live) t =
        rw (same, last_of-update _ _ (retried payload status now) _ (λ r. refl))
          (Tracks-updated _ _ _ (retried payload status now)
            (λ r r' c b. Better-retried r r' c status live b) t)
    execute-Tracks (refresh id p) k operations same t =
        rw (same, last_of-update _ _ (refreshed payload now) _ (λ r. refl))
          (Tracks-updated _ _ _ (refreshed payload now) Better-refreshed t)

    execute-Covered :
        (s : Statement) (k : Key) (operations : List Operation)
        → Allowed s
        → CoveredBy (current k operations)
        → CoveredBy (current k (execute now s operations))
    unfolding execute
    execute-Covered (insert row) k operations (same, live, _) t =
        rw last_of-append (CoveredBy-insert k row _ same live t)
    execute-Covered (retry id p status) k operations (same, live) t =
        rw (same, last_of-update _ _ (retried payload status now) _ (λ r. refl))
          (CoveredBy-updated _ _ (retried payload status now)
            (λ r r' c b. Better-retried r r' c status live b) t)
    execute-Covered (refresh id p) k operations same t =
        rw (same, last_of-update _ _ (refreshed payload now) _ (λ r. refl))
          (CoveredBy-updated _ _ (refreshed payload now) Better-refreshed t)

    pub batch-Tracks :
        (ss : List Statement) (k : Key) (operations : List Operation)
        → All Allowed ss
        → Tracks (current k existing) (current k operations)
        → Tracks (current k existing) (current k (batch now ss operations))
    unfolding batch
    batch-Tracks [] k operations a t = t
    batch-Tracks (s ∷ ss) k operations (a, as') t =
        batch-Tracks ss k _ as' (execute-Tracks s k operations a t)

    pub batch-Covered :
        (ss : List Statement) (k : Key) (operations : List Operation)
        → All Allowed ss
        → CoveredBy (current k operations)
        → CoveredBy (current k (batch now ss operations))
    unfolding batch
    batch-Covered [] k operations a t = t
    batch-Covered (s ∷ ss) k operations (a, as') t =
        batch-Covered ss k _ as' (execute-Covered s k operations a t)

    pub batch-append :
        (ss ts : List Statement) (operations : List Operation)
        → batch now (ss ++ ts) operations ≡ batch now ts (batch now ss operations)
    unfolding batch
    batch-append [] ts operations = refl
    batch-append (s ∷ ss) ts operations = batch-append ss ts _

    CoveredBy-updated_self :
        (r r' : Operation) (f : Operation → Operation)
        → r'.id ≡ r.id
        → decide (some (f r')) ≡ leave
        → CoveredBy (updated (λ x. x.id == r.id) f (some r'))
    CoveredBy-updated_self r r' f same h = simp (same, ==_refl) h

    pub retry-Covered :
        (r : Operation) (o : Option Operation) (status : OperationStatus)
        → is_failed status ≡ false
        → Tracks (some r) o
        → CoveredBy (updated (λ x. x.id == r.id) (retried payload status now) o)
    retry-Covered r none status live t = t
    retry-Covered r (some r') status live t =
        CoveredBy-updated_self r r' (retried payload status now) t.same_id
          (w.settles (retried payload status now r') refl live)

    pub refresh-Covered :
        (r : Operation) (o : Option Operation)
        → decide (some r) ≡ refresh_stale
        → Tracks (some r) o
        → CoveredBy (updated (λ x. x.id == r.id) (refreshed payload now) o)
    refresh-Covered r none h t = t
    refresh-Covered r (some r') h t =
        CoveredBy-updated_self r r' (refreshed payload now) t.same_id
          (w.settles (refreshed payload now r') refl (t.live (w.stale_is_live r h)))

    pub leave-Covered :
        (r : Operation) (o : Option Operation)
        → decide (some r) ≡ leave
        → Tracks (some r) o
        → CoveredBy o
    leave-Covered r none h t = t
    leave-Covered r (some r') h t = t.settled h

    pub Tracks-refl : (k : Key) → Tracks (current k existing) (current k existing)
    Tracks-refl k = go (current k existing)
      where
        go : (o : Option Operation) → Tracks o o
        go none = tt
        go (some r) = Better-refl r
