-- ===== src/AlertService/Notifications.antt =====
-- services/alert_service/src/alert_service/repository/notifications.py: the statements as what they
-- do to the table. A row is found by its user and its alert, on which it is unique; its id, a uuid4,
-- is not modelled.
use Prim.Native.String.{String}
use invest_view.Common.{
  Bool, true, false, ◌&&◌, Option, none, some, List, [], ◌∷◌, if◌then◌else◌, Dict, lookup, insert,
  str_beq, str_beq_iff, Eq, ◌≡◌, ◌↔◌, arith,
}

pub data DeliveryStatus : Type 0 where
  pending sent : DeliveryStatus
  failed : String → DeliveryStatus

pub record Notification : Type 0 where
  pub symbol : String
  pub delivery_status : DeliveryStatus

-- A user and an alert event.
abbrev pub NotificationKey : Type 0
NotificationKey = String × String

unfoldable pub notification_beq : NotificationKey → NotificationKey → Bool
notification_beq k j = str_beq k.0 j.0 && str_beq k.1 j.1

pub notification_beq_iff : (k j : NotificationKey) → (notification_beq k j ≡ true) ↔ (k ≡ j)
unfolding notification_beq
notification_beq_iff k j = ground (arith, str_beq_iff k.0 j.0, str_beq_iff k.1 j.1)

instance abbrev pub notification_eq : Eq NotificationKey
notification_eq = record { beq = notification_beq; beq_iff = notification_beq_iff }

abbrev pub Table : Type 0
Table = Dict NotificationKey Notification

-- A row of the insert, on a conflict nothing.
unfoldable pub insert_pending : String → NotificationKey → Table → Table
insert_pending symbol k table = elim (lookup k table) [
  | none ↦ insert k (record { symbol = symbol; delivery_status = pending }) table
  | some row ↦ table
]

unfoldable pub insert_all : List String → String → String → Table → Table
insert_all [] alert symbol table = table
insert_all (user ∷ users) alert symbol table =
    insert_all users alert symbol (insert_pending symbol (user, alert) table)

unfoldable pub is_pending : Option Notification → Bool
is_pending none = false
is_pending (some row) = elim row.delivery_status [
  | pending ↦ true
  | sent ↦ false
  | failed why ↦ false
]

-- The users whose row is pending, in the order of the argument.
unfoldable pub pending_users : List String → String → Table → List String
pending_users [] alert table = []
pending_users (user ∷ users) alert table =
    let rest = pending_users users alert table in
    if is_pending (lookup (user, alert) table) then user ∷ rest else rest

unfoldable pub bulk_create_pending : List String → String → String → Table → List String × Table
bulk_create_pending users alert symbol table =
    let created = insert_all users alert symbol table in
    (pending_users users alert created, created)

-- `mark_sent` and `mark_failed`
unfoldable pub mark : DeliveryStatus → NotificationKey → Table → Table
mark status k table = elim (lookup k table) [
  | none ↦ table
  | some row ↦ insert k (record row { delivery_status = status }) table
]
