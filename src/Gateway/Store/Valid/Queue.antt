-- ===== src/Gateway/Store/Valid/Queue.antt =====
-- The queue part of the invariant under each method on events and deliveries.
use okxquant.Prelude.{
  ℕ, ◌+◌, String, Bool, true, ◌≡◌, refl, inl, inr, List, [], ◌∷◌, ◌++◌, arith, str_eq, eq_iff,
  Bool-cases, any_of, All-map, All-any_of,
}
use okxquant.Prelude.Table.{
  update, insert_or_ignore, All-update, All-insert, Distinct-update, Distinct-insert,
  Distinct-insert_or_ignore, IsKeyed-update, IsKeyed-insert,
}
use okxquant.Gateway.Schema.{Event, Delivery, Db}
use okxquant.Gateway.Store.Deliveries.{
  same_event, same_delivery, new_delivery, publish_to, publish_all, publish, mark_processing,
  set_processing, is_in,
}
use okxquant.Gateway.Store.Valid.{delivery_id, IsRouted, QueueValid, IsValid}

-- An update that keeps the id, the event and the channel of each row keeps the invariant.
pub update-QueueValid :
    (p : Delivery → Bool) (f : Delivery → Delivery)
    → ((d : Delivery) → (f d).id ≡ d.id)
    → ((d : Delivery) → (f d).event_id ≡ d.event_id)
    → ((d : Delivery) → (f d).channel ≡ d.channel)
    → (events : List Event) (ds : List Delivery) (seq : ℕ) → QueueValid events ds seq
    → QueueValid events (update p f ds) seq
unfolding same_delivery
update-QueueValid p f keep_id keep_event keep_channel events ds seq h = record {
  keys = IsKeyed-update delivery_id p f keep_id seq ds h.keys;
  events_once = h.events_once;
  routes_once =
      Distinct-update same_delivery p f (λ x y _ e. rw (keep_event y, keep_channel y) e)
        (λ x y _ e. rw (keep_event x, keep_channel x) e) ds h.routes_once;
  routed = All-update (IsRouted events) p f (λ d _ r. rw (keep_event d) r) ds h.routed;
}

pub mark_processing-QueueValid :
    (ids : List ℕ) (events : List Event) (ds : List Delivery) (seq : ℕ)
    → QueueValid events ds seq
    → QueueValid events (mark_processing ids ds) seq
unfolding mark_processing
mark_processing-QueueValid [] events ds seq h = h
mark_processing-QueueValid (i ∷ ids) events ds seq h =
    update-QueueValid (λ d. is_in (i ∷ ids) d.id) set_processing (λ d. refl) (λ d. refl) (λ d. refl)
      events ds seq h

pub publish_to-IsValid :
    (event : Event) (channel : String) (db : Db)
    → any_of (λ e. str_eq e.event_id event.event_id) db.events ≡ true
    → IsValid db
    → IsValid (publish_to event channel db)
unfolding publish_to
publish_to-IsValid event channel db known v =
    let row = new_delivery (db.delivery_seq + 1) event channel in
    let h = v.queue in
    elim (Bool-cases (any_of (λ d. same_delivery d row) db.deliveries)) [
      | inl e ↦ rw e v
      | inr e ↦ rw e record {
        queue = record {
          keys = IsKeyed-insert delivery_id db.delivery_seq row db.deliveries refl h.keys;
          events_once = h.events_once;
          routes_once =
              Distinct-insert same_delivery row db.deliveries h.routes_once
                (All-any_of (λ d. same_delivery d row) db.deliveries e);
          routed = All-insert (IsRouted db.events) row db.deliveries h.routed known;
        };
        runs = v.runs;
        requests = v.requests;
        recoveries = v.recoveries;
      }
    ]

events-publish_to :
    (event : Event) (channel : String) (db : Db) → (publish_to event channel db).events ≡ db.events
unfolding publish_to
events-publish_to event channel db = ground arith

publish_all-IsValid :
    (event : Event) (channels : List String) (db : Db)
    → any_of (λ e. str_eq e.event_id event.event_id) db.events ≡ true
    → IsValid db
    → IsValid (publish_all event channels db)
unfolding publish_all
publish_all-IsValid event [] db known v = v
publish_all-IsValid event (channel ∷ rest) db known v =
    publish_all-IsValid event rest (publish_to event channel db)
      (rw (events-publish_to event channel db) known) (publish_to-IsValid event channel db known v)

any_of-append_left :
    (q : Event → Bool) (xs ys : List Event) → any_of q xs ≡ true → any_of q (xs ++ ys) ≡ true
any_of-append_left q [] ys h = cc
any_of-append_left q (x ∷ xs) ys h = ground (arith, any_of-append_left q xs ys)

any_of-append_right :
    (q : Event → Bool) (xs : List Event) (y : Event) → q y ≡ true → any_of q (xs ++ (y ∷ [])) ≡ true
any_of-append_right q [] y h = ground arith
any_of-append_right q (x ∷ xs) y h = ground (arith, any_of-append_right q xs y h)

-- After INSERT OR IGNORE the event is there, and so is every event that was.
insert_event-known :
    (event : Event) (events : List Event)
    → any_of (λ e. str_eq e.event_id event.event_id) (insert_or_ignore same_event event events)
      ≡ true
unfolding insert_or_ignore same_event
insert_event-known event events =
    elim (Bool-cases (any_of (λ e. str_eq e.event_id event.event_id) events)) [
      | inl e ↦ rw (e, e)
      | inr e ↦ rw e (
          any_of-append_right (λ e. str_eq e.event_id event.event_id) events event
            ((eq_iff event.event_id event.event_id).1 refl))
    ]

insert_event-keeps :
    (event : Event) (events : List Event) (d : Delivery)
    → IsRouted events d
    → IsRouted (insert_or_ignore same_event event events) d
unfolding insert_or_ignore same_event
insert_event-keeps event events d h =
    elim (Bool-cases (any_of (λ e. str_eq e.event_id event.event_id) events)) [
      | inl e ↦ rw e h
      | inr e ↦ rw e (any_of-append_left (λ e. str_eq e.event_id d.event_id) events (event ∷ []) h)
    ]

pub publish-IsValid :
    (event : Event) (channels : List String) (db : Db)
    → IsValid db
    → IsValid (publish event channels db)
unfolding publish
publish-IsValid event channels db v =
    let events = insert_or_ignore same_event event db.events in
    let h = v.queue in
    publish_all-IsValid event channels (record db { events = events })
      (insert_event-known event db.events)
      (record {
        queue = record {
          keys = h.keys;
          events_once = Distinct-insert_or_ignore same_event event db.events h.events_once;
          routes_once = h.routes_once;
          routed =
              All-map (IsRouted db.events) (IsRouted events) (insert_event-keeps event db.events)
                db.deliveries h.routed;
        };
        runs = v.runs;
        requests = v.requests;
        recoveries = v.recoveries;
      })
