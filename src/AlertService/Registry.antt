-- ===== src/AlertService/Registry.antt =====
-- services/alert_service/src/alert_service/ws/registry.py: `ConnectionRegistry`. A socket is a number;
-- whether it takes a payload is an argument.
use Prim.Native.String.{String}
use invest_view.Common.{
  ℕ, suc, ◌+◌, Bool, true, false, none, some, List, [], ◌∷◌, if◌then◌else◌, Dict, lookup, insert,
  erase, string_eq, Eq, add, discard, length, ◌==◌, ==_iff,
}

instance abbrev socket_eq : Eq ℕ
socket_eq = record { beq = ◌==◌; beq_iff = ==_iff }

pub record ConnectionRegistry : Type 0 where
  pub by_user : Dict String (List ℕ)

-- `self._by_user.get(user_id, ())`
unfoldable pub get_connections : String → ConnectionRegistry → List ℕ
get_connections user_id r = elim (lookup user_id r.by_user) [ none ↦ [] | some sockets ↦ sockets ]

unfoldable pub is_connected : String → ConnectionRegistry → Bool
unfolding get_connections
is_connected user_id r = elim (get_connections user_id r) [ [] ↦ false | s ∷ sockets ↦ true ]

-- `add`
unfoldable pub add_socket : String → ℕ → ConnectionRegistry → ConnectionRegistry
unfolding get_connections
add_socket user_id ws r = record r {
  by_user = insert user_id (add ws (get_connections user_id r)) r.by_user;
}

-- `remove`
unfoldable pub remove_socket : String → ℕ → ConnectionRegistry → ConnectionRegistry
unfolding get_connections
remove_socket user_id ws r = elim (get_connections user_id r) [
  | [] ↦ r
  | s ∷ sockets ↦ elim (discard ws (s ∷ sockets)) [
    | [] ↦ record r { by_user = erase user_id r.by_user }
    | t ∷ rest ↦ record r { by_user = insert user_id (t ∷ rest) r.by_user }
  ]
]

-- The first loop of `send_to_user`: how many took the payload, and which did not.
unfoldable pub send_each : (ℕ → Bool) → List ℕ → ℕ × List ℕ
send_each takes [] = (0, [])
send_each takes (ws ∷ sockets) =
    let (sent, failed) = send_each takes sockets in
    if takes ws then (suc sent, failed) else (sent, ws ∷ failed)

unfoldable pub remove_all : String → List ℕ → ConnectionRegistry → ConnectionRegistry
unfolding remove_socket
remove_all user_id [] r = r
remove_all user_id (ws ∷ failed) r = remove_all user_id failed (remove_socket user_id ws r)

unfoldable pub send_to_user :
    (ℕ → Bool) → String → ConnectionRegistry → (ℕ × ℕ) × ConnectionRegistry
unfolding send_each remove_all
send_to_user takes user_id r =
    let (sent, failed) = send_each takes (get_connections user_id r) in
    ((sent, length failed), remove_all user_id failed r)

unfoldable pub count_sockets : Dict String (List ℕ) → ℕ
count_sockets [] = 0
count_sockets ((user_id, sockets) ∷ rest) = length sockets + count_sockets rest

-- `total_connections` and `total_users`
unfoldable pub total_connections : ConnectionRegistry → ℕ
unfolding count_sockets
total_connections r = count_sockets r.by_user

unfoldable pub total_users : ConnectionRegistry → ℕ
total_users r = length r.by_user
