-- ===== src/AlertService/Pusher/Replay.antt =====
-- An alert that was handled is settled for its watchers, so handling it again changes nothing.
use Prim.Native.String.{String}
use invest_view.Common.{
  ℕ, ◌≡◌, refl, sym, ap, subst, ◌∙◌, inl, inr, Bool, true, false, not, none, some, List, [], ◌∷◌,
  arith, if◌then◌else◌, lookup, lookup-insert, Bool-cases, Option-cases, All, str_beq, string_eq,
  beq_refl, add, member, member-add, ltb,
}
use invest_view.AlertService.Registry.{is_connected, send_to_user}
use invest_view.AlertService.Notifications.{
  NotificationKey, notification_eq, notification_beq_iff, DeliveryStatus, pending, sent, failed,
  Notification, Table, insert_pending, insert_all, is_pending, pending_users, bulk_create_pending,
  mark,
}
use invest_view.AlertService.Pusher.{
  AlertEvent, World, Database, notify, notify_all, fan_out, handle_alert, sentinel_alert_event_id,
}

-- A row is there.
unfoldable has : NotificationKey → Table → Bool
has k table = elim (lookup k table) [ none ↦ false | some row ↦ true ]

-- A row is there and is no longer pending.
unfoldable pub settled : NotificationKey → Table → Bool
settled k table = elim (lookup k table) [ none ↦ false | some row ↦ not (is_pending (some row)) ]

unfoldable is_final : DeliveryStatus → Bool
is_final pending = false
is_final sent = true
is_final (failed why) = true

mark_settles :
    (status : DeliveryStatus) (k : NotificationKey) (table : Table)
    → is_final status ≡ true
    → has k table ≡ true
    → settled k (mark status k table) ≡ true
unfolding mark settled has is_final is_pending
mark_settles status k table f h = elim (Option-cases (lookup k table)) [
  | inl missing ↦ absurd (ground (arith, missing, h))
  | inr (row, e) ↦
      let row' : Notification = record row { delivery_status = status } in
      ground (arith, e, f, lookup-insert k k row' table, notification_beq_iff k k)
]

mark_keeps :
    (status : DeliveryStatus) (k j : NotificationKey) (table : Table)
    → is_final status ≡ true
    → (settled j table ≡ true → settled j (mark status k table) ≡ true)
      × (has j table ≡ true → has j (mark status k table) ≡ true)
unfolding mark settled has is_final is_pending
mark_keeps status k j table f = elim (Option-cases (lookup k table)) [
  | inl missing ↦ (λ s. ground (arith, missing, s), λ h. ground (arith, missing, h))
  | inr (row, e) ↦
      let row' : Notification = record row { delivery_status = status } in
      (
        λ s. ground (arith, e, f, s, lookup-insert k j row' table, notification_beq_iff k j),
        λ h. ground (arith, e, h, lookup-insert k j row' table, notification_beq_iff k j),
      )
]

-- A round that does not raise marks its row, with a status that is final.
notify_lem :
    (db : Database) (takes : ℕ → Bool) (k : NotificationKey) (w w' : World)
    → notify db takes k w ≡ (true, w')
    → (status : DeliveryStatus) × (is_final status ≡ true)
      × (w'.notifications ≡ mark status k w.notifications)
      × (w'.alerts ≡ w.alerts)
unfolding notify is_final
notify_lem db takes k w w' h = elim (Bool-cases (is_connected k.0 w.registry)) [
  | inr away ↦ (failed "no_connection", refl, ground (arith, away, h), ground (arith, away, h))
  | inl there ↦ elim (Bool-cases (ltb 0 (send_to_user takes k.0 w.registry).0.0)) [
    | inl some_took ↦
        (sent, refl, ground (arith, there, some_took, h), ground (arith, there, some_took, h))
    | inr none_took ↦ (
      failed "send_error",
      refl,
      ground (arith, there, none_took, h),
      ground (arith, there, none_took, h),
    )
  ]
]

-- What a run over users leaves: the rows that were there are there, those that were settled are.
abbrev Kept : World → World → Type 0
Kept w w' =
    (w'.alerts ≡ w.alerts)
    × ((j : NotificationKey) → has j w.notifications ≡ true → has j w'.notifications ≡ true)
    × ((j : NotificationKey) → settled j w.notifications ≡ true → settled j w'.notifications ≡ true)

notify-Kept :
    (db : Database) (takes : ℕ → Bool) (k : NotificationKey) (w w' : World)
    → notify db takes k w ≡ (true, w')
    → Kept w w' × (has k w.notifications ≡ true → settled k w'.notifications ≡ true)
notify-Kept db takes k w w' h =
    let (status, f, e, a) = notify_lem db takes k w w' h in
    (
      (
        a,
        λ j p. subst (λ t. has j t ≡ true) (sym e) ((mark_keeps status k j w.notifications f).1 p),
        λ j p.
            subst (λ t. settled j t ≡ true) (sym e) ((mark_keeps status k j w.notifications f).0 p),
      ),
      λ p. subst (λ t. settled k t ≡ true) (sym e) (mark_settles status k w.notifications f p),
    )

-- A run that does not raise has done its first round, and the others.
notify_all_step :
    (db : Database) (takes : ℕ → Bool) (alert user : String) (users : List String) (w w' : World)
    → notify_all db takes alert (user ∷ users) w ≡ (true, w')
    → (w₁ : World) × (notify db takes (user, alert) w ≡ (true, w₁))
      × (notify_all db takes alert users w₁ ≡ (true, w'))
unfolding notify_all
notify_all_step db takes alert user users w w' h =
    elim (Bool-cases (notify db takes (user, alert) w).0) [
      | inl done ↦
          ((notify db takes (user, alert) w).1, ground (arith, done), ground (arith, done, h))
      | inr raised ↦ absurd (ground (arith, raised, h))
    ]

notify_none :
    (db : Database) (takes : ℕ → Bool) (alert : String) (w w' : World)
    → notify_all db takes alert [] w ≡ (true, w')
    → w ≡ w'
unfolding notify_all
notify_none db takes alert w w' h = ap (λ (r : Bool × World). r.1) h

notify_all-Kept :
    (db : Database) (takes : ℕ → Bool) (alert : String) (users : List String) (w w' : World)
    → All (λ user. has (user, alert) w.notifications ≡ true) users
    → notify_all db takes alert users w ≡ (true, w')
    → Kept w w' × All (λ user. settled (user, alert) w'.notifications ≡ true) users
notify_all-Kept db takes alert [] w w' there h =
    subst (λ v. Kept w v × All (λ user. settled (user, alert) v.notifications ≡ true) [])
      (notify_none db takes alert w w' h) ((refl, λ j p. p, λ j p. p), tt)
notify_all-Kept db takes alert (user ∷ users) w w' (one, there) h =
    let (w₁, first, others) = notify_all_step db takes alert user users w w' h in
    let ((a, kept, stays), settles) = notify-Kept db takes (user, alert) w w₁ first in
    let ((a', kept', stays'), rest) =
      notify_all-Kept db takes alert users w₁ w' (All-map users there (λ u p. kept (u, alert) p))
        others in
    (
      (a' ∙ a, λ j p. kept' j (kept j p), λ j p. stays' j (stays j p)),
      (stays' (user, alert) (settles one), rest),
    )
  where
    All-map :
        {P Q : String → Type 0} (us : List String)
        → All P us
        → ((u : String) → P u → Q u)
        → All Q us
    All-map [] h f = tt
    All-map (u ∷ us) h f = (f u h.0, All-map us h.1 f)

insert_pending_lem :
    (symbol : String) (k j : NotificationKey) (table : Table)
    → (has k (insert_pending symbol k table) ≡ true)
      × (has j table ≡ true → has j (insert_pending symbol k table) ≡ true)
      × (has k table ≡ true → insert_pending symbol k table ≡ table)
unfolding insert_pending has
insert_pending_lem symbol k j table =
    let row : Notification = record { symbol = symbol; delivery_status = pending } in
    (
      ground (arith, lookup-insert k k row table, notification_beq_iff k k),
      λ h. ground (arith, h, lookup-insert k j row table, notification_beq_iff k j),
      λ h. ground (arith, h),
    )

insert_all_keeps :
    (users : List String) (alert symbol : String) (table : Table) (j : NotificationKey)
    → has j table ≡ true
    → has j (insert_all users alert symbol table) ≡ true
unfolding insert_all
insert_all_keeps [] alert symbol table j h = h
insert_all_keeps (user ∷ users) alert symbol table j h =
    insert_all_keeps users alert symbol (insert_pending symbol (user, alert) table) j
      ((insert_pending_lem symbol (user, alert) j table).1 h)

insert_all-has :
    (users : List String) (alert symbol : String) (table : Table)
    → All (λ user. has (user, alert) (insert_all users alert symbol table) ≡ true) users
unfolding insert_all
insert_all-has [] alert symbol table = tt
insert_all-has (user ∷ users) alert symbol table =
    let next = insert_pending symbol (user, alert) table in
    (
      insert_all_keeps users alert symbol next (user, alert)
          ((insert_pending_lem symbol (user, alert) (user, alert) table).0),
      insert_all-has users alert symbol next,
    )

settled_lem :
    (k : NotificationKey) (t : Table)
    → settled k t ≡ true
    → (has k t ≡ true) × (is_pending (lookup k t) ≡ false)
unfolding settled has is_pending
settled_lem k t s = (ground (arith, s), ground (arith, s))

insert_all_next :
    (user : String) (users : List String) (alert symbol : String) (table : Table)
    → has (user, alert) table ≡ true
    → insert_all (user ∷ users) alert symbol table ≡ insert_all users alert symbol table
unfolding insert_all
insert_all_next user users alert symbol table there =
    ap (insert_all users alert symbol)
      ((insert_pending_lem symbol (user, alert) (user, alert) table).2 there)

pending_users_next :
    (user : String) (users : List String) (alert : String) (table : Table) (pending_now : Bool)
    → is_pending (lookup (user, alert) table) ≡ pending_now
    → pending_users (user ∷ users) alert table ≡ (
        if pending_now
        then user ∷ pending_users users alert table
        else pending_users users alert table)
unfolding pending_users
pending_users_next user users alert table pending_now e = rw e refl

-- Where all are settled, nothing is inserted and none is pending.
insert_all_again :
    (users : List String) (alert symbol : String) (table : Table)
    → All (λ user. settled (user, alert) table ≡ true) users
    → (insert_all users alert symbol table ≡ table) × (pending_users users alert table ≡ [])
insert_all_again [] alert symbol table h = unfold insert_all pending_users in (refl, refl)
insert_all_again (user ∷ users) alert symbol table (one, h) =
    let (there, quiet) = settled_lem (user, alert) table one in
    let (same, none_pending) = insert_all_again users alert symbol table h in
    (
      insert_all_next user users alert symbol table there ∙ same,
      pending_users_next user users alert table false quiet ∙ none_pending,
    )

settled_of :
    (k : NotificationKey) (t : Table)
    → has k t ≡ true
    → is_pending (lookup k t) ≡ false
    → settled k t ≡ true
unfolding settled has is_pending
settled_of k t h quiet = ground (arith, h, quiet)

-- A row that is there is pending, so its user is told, or it is settled.
told_or_settled :
    (users : List String) (alert : String) (table : Table)
    → All (λ user. has (user, alert) table ≡ true) users
    → All (λ user. has (user, alert) table ≡ true) (pending_users users alert table)
      × ((P : String → Type 0)
          → All P (pending_users users alert table)
          → ((user : String) → settled (user, alert) table ≡ true → P user)
          → All P users)
told_or_settled [] alert table h = (unfold pending_users in tt, λ P told s. tt)
told_or_settled (user ∷ users) alert table (one, h) =
    let (there, rest) = told_or_settled users alert table h in
    elim (Bool-cases (is_pending (lookup (user, alert) table))) [
      | inl waits ↦
          let e = sym (pending_users_next user users alert table true waits) in
          (
            subst (All (λ u. has (u, alert) table ≡ true)) e (one, there),
            λ P told s.
                let (t, ts) : All P (user ∷ pending_users users alert table) =
                  subst (All P) (sym e) told in
                (t, rest P ts s),
          )
      | inr quiet ↦
          let e = sym (pending_users_next user users alert table false quiet) in
          (
            subst (All (λ u. has (u, alert) table ≡ true)) e there,
            λ P told s. (
              s user (settled_of (user, alert) table one quiet),
              rest P (subst (All P) (sym e) told) s,
            ),
          )
    ]

-- The state in which the fan-out tells the users.
abbrev created : AlertEvent → List String → World → World
created event users w = record w {
  notifications = insert_all users event.alert_event_id event.symbol w.notifications;
}

fan_out_lem :
    (db : Database) (takes : ℕ → Bool) (event : AlertEvent) (user : String) (users : List String)
    (w w' : World)
    → fan_out db takes event (user ∷ users) w ≡ (true, w')
    → notify_all db takes event.alert_event_id
        (pending_users
          (user ∷ users)
          event.alert_event_id
          (created event (user ∷ users) w).notifications)
        (created event (user ∷ users) w)
      ≡ (true, w')
unfolding fan_out bulk_create_pending
fan_out_lem db takes event user users w w' h = ground (arith, h)

fan_out_none :
    (db : Database) (takes : ℕ → Bool) (event : AlertEvent) (w w' : World)
    → fan_out db takes event [] w ≡ (true, w')
    → w ≡ w'
unfolding fan_out
fan_out_none db takes event w w' h = ap (λ (r : Bool × World). r.1) h

fan_out_settles :
    (db : Database) (takes : ℕ → Bool) (event : AlertEvent) (users : List String) (w w' : World)
    → fan_out db takes event users w ≡ (true, w')
    → (w'.alerts ≡ w.alerts)
      × All (λ user. settled (user, event.alert_event_id) w'.notifications ≡ true) users
fan_out_settles db takes event [] w w' h =
    (ap (λ (v : World). v.alerts) (sym (fan_out_none db takes event w w' h)), tt)
fan_out_settles db takes event (user ∷ users) w w' h =
    let alert = event.alert_event_id in
    let start = created event (user ∷ users) w in
    let (there, choose) =
      told_or_settled (user ∷ users) alert start.notifications
        (insert_all-has (user ∷ users) alert event.symbol w.notifications) in
    let ((a, kept, stays), told) =
      notify_all-Kept db takes alert (pending_users (user ∷ users) alert start.notifications) start
        w' there (fan_out_lem db takes event user users w w' h) in
    (a, choose (λ u. settled (u, alert) w'.notifications ≡ true) told (λ u s. stays (u, alert) s))

fan_out_again :
    (db : Database) (takes : ℕ → Bool) (event : AlertEvent) (users : List String) (w : World)
    → db.creates ≡ true
    → All (λ user. settled (user, event.alert_event_id) w.notifications ≡ true) users
    → fan_out db takes event users w ≡ (true, w)
unfolding fan_out bulk_create_pending notify_all
fan_out_again db takes event [] w c h = refl
fan_out_again db takes event (user ∷ users) w c h =
    let (same, quiet) =
      insert_all_again (user ∷ users) event.alert_event_id event.symbol w.notifications h in
    rw (c, same, quiet) refl

handle_alert_lem :
    (fail_after_alert : Bool) (db : Database) (takes : ℕ → Bool) (event : AlertEvent) (w w' : World)
    → handle_alert fail_after_alert db takes event w ≡ (true, w')
    → (str_beq event.alert_event_id sentinel_alert_event_id ≡ false)
      × (fan_out db takes event
            (db.find_users_for_symbol event.symbol)
            (record w { alerts = add event.alert_event_id w.alerts })
          ≡ (true, w'))
unfolding handle_alert
handle_alert_lem fail_after_alert db takes event w w' h = (ground (arith, h), ground (arith, h))

add_there : (a : String) (s : List String) → member a s ≡ true → add a s ≡ s
unfolding add
add_there a s there = ground (arith, there)

member_added : (a : String) (s : List String) → member a (add a s) ≡ true
member_added a s = ground (arith, member-add a a s, beq_refl a)

handle_alert_run :
    (db : Database) (takes : ℕ → Bool) (event : AlertEvent) (w : World)
    → str_beq event.alert_event_id sentinel_alert_event_id ≡ false
    → db.upserts ≡ true
    → db.finds ≡ true
    → handle_alert false db takes event w
      ≡ fan_out db takes event
          (db.find_users_for_symbol event.symbol)
          (record w { alerts = add event.alert_event_id w.alerts })
unfolding handle_alert
handle_alert_run db takes event w n u f = ground (arith, n, u, f)

-- After an alert is handled without an exception, every watcher's notification is settled; handling
-- the same alert again, over whatever sockets, with a database that answers and with the same
-- watchers, changes nothing: no row, no registry, and nothing is pushed.
pub handle_alert_replay :
    (fail_after_alert : Bool) (db db' : Database) (takes takes' : ℕ → Bool) (event : AlertEvent)
    (w w' : World)
    → handle_alert fail_after_alert db takes event w ≡ (true, w')
    → db'.upserts ≡ true
    → db'.finds ≡ true
    → db'.creates ≡ true
    → db'.find_users_for_symbol event.symbol ≡ db.find_users_for_symbol event.symbol
    → All
        (λ user. settled (user, event.alert_event_id) w'.notifications ≡ true)
        (db.find_users_for_symbol event.symbol)
      × (handle_alert false db' takes' event w' ≡ (true, w'))
handle_alert_replay fail_after_alert db db' takes takes' event w w' h u f c same =
    let (n, done) = handle_alert_lem fail_after_alert db takes event w w' h in
    let users = db.find_users_for_symbol event.symbol in
    let upserted : World = record w { alerts = add event.alert_event_id w.alerts } in
    let (a, told) = fan_out_settles db takes event users upserted w' done in
    let known : add event.alert_event_id w'.alerts ≡ w'.alerts =
      add_there event.alert_event_id w'.alerts (
        subst (λ s. member event.alert_event_id s ≡ true) (sym a)
          (member_added event.alert_event_id w.alerts)) in
    (
      told,
      handle_alert_run db' takes' event w' n u f
          ∙ ap
              (λ us.
                fan_out db' takes' event us
                  (record w' { alerts = add event.alert_event_id w'.alerts }))
              same
          ∙ ap (λ s. fan_out db' takes' event users (record w' { alerts = s })) known
          ∙ fan_out_again db' takes' event users w' c told,
    )
