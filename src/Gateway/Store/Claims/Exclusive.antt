-- ===== src/Gateway/Store/Claims/Exclusive.antt =====
-- Proofs on claim_due of okxquant_gateway/store.py: a second claim after a first.
use okxquant.Prelude.{
  ℕ, ◌≤◌, Bool, true, false, ◌≡◌, refl, inl, inr, List, [], ◌∷◌, arith, Bool-cases, All, All-map,
  All-always, All-take, map, take,
}
use okxquant.Prelude.Table.{All-updated, All-select, select}
use okxquant.Gateway.Schema.{Delivery, DeliveryStatus, Db}
use okxquant.Gateway.Store.Call.{Call}
use okxquant.Gateway.Store.Deliveries.{
  Claim, is_waiting, is_due, due_rows, claim_id, is_in, set_processing, mark_processing,
  claim_locked,
}
use okxquant.Gateway.Store.Operations.{run}
use okxquant.Gateway.Store.Valid.{IsValid}
use okxquant.Gateway.Store.Claims.Queue.{due_rows-All}
use okxquant.Gateway.Store.Frames.{queue_of}
use okxquant.Gateway.Store.Claims.Held.{releases, IsHeld, Held, run-Held}

All-ids :
    (n : ℕ) (rows : List Claim)
    → All (λ c. c.delivery.id ≤ n) rows
    → All (λ i. i ≤ n) (map claim_id rows)
All-ids n [] h = tt
All-ids n (c ∷ rows) h = (h.0, All-ids n rows h.1)

nothing_in : (d : Delivery) → is_in [] d.id ≡ true → ⊥
unfolding is_in
nothing_in d hit = cc

marked-IsHeld : (ids : List ℕ) (ds : List Delivery) → All (IsHeld ids) (mark_processing ids ds)
unfolding mark_processing
marked-IsHeld [] ds = All-always (IsHeld []) (λ d hit. absurd (nothing_in d hit)) ds
marked-IsHeld (i ∷ ids) ds =
    All-updated (IsHeld (i ∷ ids)) (λ d. is_in (i ∷ ids) d.id) set_processing (λ d _ _. refl)
      (λ d miss hit. absurd (clash miss hit)) ds
  where
    clash : {b : Bool} → b ≡ false → b ≡ true → ⊥
    clash p q = cc

claim_locked-Held :
    (now limit : ℕ) (db : Db)
    → IsValid db
    → let (rows, db') = claim_locked now limit db in Held (map claim_id rows) (queue_of db')
unfolding claim_locked
claim_locked-Held now limit db v =
    let rows = take limit (due_rows now db) in
    record {
      rows = marked-IsHeld (map claim_id rows) db.deliveries;
      below = All-ids db.delivery_seq rows (
          All-take (λ c. c.delivery.id ≤ db.delivery_seq) limit (due_rows now db)
            (due_rows-All (λ d. d.id ≤ db.delivery_seq) now db
              (All-map (λ d. (d.id ≤ db.delivery_seq) × (is_due now d ≡ true))
                (λ d. d.id ≤ db.delivery_seq) (λ d h. h.0) (select (is_due now) db.deliveries)
                (All-select (λ d. d.id ≤ db.delivery_seq) (is_due now) db.deliveries
                  v.queue.keys.bounded))));
    }

held_not_due :
    (ids : List ℕ) (now : ℕ) (d : Delivery)
    → IsHeld ids d
    → is_due now d ≡ true
    → is_in ids d.id ≡ false
unfolding is_due is_waiting
held_not_due ids now d held due = elim (Bool-cases (is_in ids d.id)) [
  | inr e ↦ e
  | inl e ↦ let busy : d.status ≡ DeliveryStatus.processing = held e in ground arith
]

Held-not_claimed :
    (ids : List ℕ) (now limit : ℕ) (db : Db)
    → Held ids (queue_of db)
    → All (λ c. is_in ids (claim_id c) ≡ false) (claim_locked now limit db).0
unfolding claim_locked
Held-not_claimed ids now limit db h =
    All-take (λ c. is_in ids (claim_id c) ≡ false) limit (due_rows now db)
      (due_rows-All (λ d. is_in ids d.id ≡ false) now db
        (All-map (λ d. IsHeld ids d × (is_due now d ≡ true)) (λ d. is_in ids d.id ≡ false)
          (λ d k. held_not_due ids now d k.0 k.1) (select (is_due now) db.deliveries)
          (All-select (IsHeld ids) (is_due now) db.deliveries h.rows)))

-- From a database that satisfies the constraints: what a claim returned, no later claim returns as
-- long as no call in between completes or fails one of these deliveries or recovers the queue.
pub claim_locked-exclusive :
    (now limit later most : ℕ) (calls : List (ℕ × Call)) (db : Db)
    → IsValid db
    → All (λ c. releases (map claim_id (claim_locked now limit db).0) c.1 ≡ false) calls
    → All
        (λ c. is_in (map claim_id (claim_locked now limit db).0) (claim_id c) ≡ false)
        (claim_locked later most (run calls (claim_locked now limit db).1)).0
claim_locked-exclusive now limit later most calls db v kept =
    let (rows, db') = claim_locked now limit db in
    Held-not_claimed (map claim_id rows) later most (run calls db')
      (run-Held (map claim_id rows) calls db' kept (claim_locked-Held now limit db v))
