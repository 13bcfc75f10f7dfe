-- ===== src/KisIngestion/Connection/Tracking.antt =====
-- The pending requests account for what is still to change, until every answer has come.
use Prim.Native.String.{String}
use invest_view.Common.{
  ℕ, zero, suc, ◌+◌, ◌≤◌, ◌≡◌, inl, inr, refl, Bool, true, false, not, ◌&&◌, Option, none, some,
  List, [], ◌∷◌, arith, if◌then◌else◌, lookup, lookup-insert, lookup-erase, member, member-add,
  member-discard, member-difference, Option-cases, Bool-cases, ◌∙◌, subst, sym, ap,
}
use invest_view.KisIngestion.Pool.{
  Subscription, subscription_eq, subscription_beq_iff, KisSubscriptionPool, diff, clear_actual,
  confirm_subscribed, confirm_unsubscribed,
}
use invest_view.KisIngestion.Connection.{
  ControlOperation, subscribe, unsubscribe, Manager, Socket, Attempt, mark_sent, send_all,
  subscribe_all, connect, try_reconnect, reconnect_from, reconnect, max_retries,
}
use invest_view.KisIngestion.Connection.Response.{
  Fields, extract_response_value, response_operation, confirm, handle_json_response,
}

-- What a subscription becomes when the pending request is answered is what is desired of it.
abbrev pub TrackedBy : Option ControlOperation → Bool → Bool → Type 0
TrackedBy none desired actual = actual ≡ desired
TrackedBy (some subscribe) desired actual = desired ≡ true
TrackedBy (some unsubscribe) desired actual = desired ≡ false

diff_lem :
    (pool : KisSubscriptionPool) (k : Subscription)
    → (member k (diff pool).0 ≡ (member k pool.desired && not (member k pool.actual)))
      × (member k (diff pool).1 ≡ (member k pool.actual && not (member k pool.desired)))
diff_lem pool k =
    unfold diff in
    (member-difference k pool.desired pool.actual, member-difference k pool.actual pool.desired)

lookup_empty : (k : Subscription) → lookup {V = ControlOperation} k [] ≡ none
unfolding lookup
lookup_empty k = refl

-- Requests for all differences, over an empty table.
tracked_lem :
    (pool : KisSubscriptionPool) (k : Subscription) (p : Option ControlOperation)
    → p ≡ (
        if member k (diff pool).0
        then some subscribe
        else if member k (diff pool).1
        then some unsubscribe
        else none)
    → TrackedBy p (member k pool.desired) (member k pool.actual)
tracked_lem pool k p h = ground (arith, diff_lem pool k)

module _ {T : Type 0} where
  abbrev pub Tracked : Manager T → Type 0
  Tracked m =
      (k : Subscription)
      → TrackedBy (lookup k m.pending) (member k m.pool.desired) (member k m.pool.actual)

  -- The requests of one loop are pending afterwards, and the pool is as it was.
  send_all_lem :
      (socket : Socket) (op : ControlOperation) (ks : List Subscription) (m m' : Manager T)
      → send_all socket op ks m ≡ (true, m')
      → (m'.pool ≡ m.pool)
        × (m'.session_id ≡ m.session_id)
        × (m'.sequence ≡ m.sequence)
        × ((k : Subscription)
            → lookup k m'.pending ≡ (if member k ks then some op else lookup k m.pending))
  unfolding send_all member
  send_all_lem socket op [] m m' h = (ground arith, ground arith, ground arith, λ k. ground arith)
  send_all_lem socket op (j ∷ ks) m m' h = elim (Bool-cases (socket op j)) [
    | inl goes ↦
        let (e₁, e₂, e₃, e₄) =
          send_all_lem socket op ks (mark_sent op j m) m' (ground (arith, goes)) in
        (
          ground (arith, e₁),
          ground (arith, e₂),
          ground (arith, e₃),
          λ k. ground (arith, e₄ k, lookup-insert j k op m.pending),
        )
    | inr fails ↦ absurd (ground (arith, fails))
  ]

  -- Both loops from an empty table: every difference has its request pending.
  subscribe_all-Tracked :
      (socket : Socket) (m m' : Manager T)
      → m.pending ≡ []
      → subscribe_all socket m ≡ (true, m')
      → Tracked m'
        × (m'.pool ≡ m.pool)
        × (m'.session_id ≡ m.session_id)
        × (m'.sequence ≡ m.sequence)
  unfolding subscribe_all
  subscribe_all-Tracked socket m m' fresh h = elim (Option-cases m.approval_key) [
    | inl missing ↦ absurd (ground (arith, missing))
    | inr (key, given) ↦
        let first = send_all socket unsubscribe (diff m.pool).1 m in
        elim (Bool-cases first.0) [
          | inr fails ↦ absurd (ground (arith, given, fails))
          | inl goes ↦
              let (a₁, a₂, a₃, a₄) =
                send_all_lem socket unsubscribe (diff m.pool).1 m first.1 (ground (arith, goes)) in
              let (b₁, b₂, b₃, b₄) =
                send_all_lem socket subscribe (diff m.pool).0 first.1 m'
                  (ground (arith, given, goes)) in
              (
                λ k.
                    subst
                      (λ p.
                        TrackedBy (lookup k m'.pending) (member k p.desired) (member k p.actual))
                      (sym (b₁ ∙ a₁))
                      (tracked_lem m.pool k (lookup k m'.pending)
                        (b₄ k ∙ rw (a₄ k, fresh, lookup_empty k) refl)),
                b₁ ∙ a₁,
                b₂ ∙ a₂,
                b₃ ∙ a₃,
              )
        ]
  ]

  -- A connection that is made tracks every difference between what is desired and what is not.
  connect-Tracked :
      (attempt : Attempt) (m m' : Manager T) → connect attempt m ≡ (true, m') → Tracked m'
  unfolding connect
  connect-Tracked attempt m m' h = elim (Option-cases attempt.refreshed_key) [
    | inl missing ↦ absurd (ground (arith, missing))
    | inr (key, given) ↦
        (subscribe_all-Tracked attempt.socket
          (record m {
            approval_key = some key;
            session_id = attempt.new_session;
            sequence = 0;
            running = true;
            pending = [];
          })
          m' refl (ground (arith, given))).0
  ]

  send_all_pool :
      (socket : Socket) (op : ControlOperation) (ks : List Subscription) (m : Manager T)
      → (send_all socket op ks m).1.pool ≡ m.pool
  unfolding send_all
  send_all_pool socket op [] m = refl
  send_all_pool socket op (k ∷ ks) m = ground (arith, send_all_pool socket op ks (mark_sent op k m))

  subscribe_all_pool : (socket : Socket) (m : Manager T) → (subscribe_all socket m).1.pool ≡ m.pool
  unfolding subscribe_all
  subscribe_all_pool socket m = ground (
    arith,
    send_all_pool socket unsubscribe (diff m.pool).1 m,
    send_all_pool socket subscribe (diff m.pool).0
        (send_all socket unsubscribe (diff m.pool).1 m).1,
  )

  -- The state in which an attempt with this key subscribes.
  abbrev pub reset : Attempt → String → Manager T → Manager T
  reset attempt key m = record m {
    approval_key = some key;
    pool = clear_actual m.pool;
    pending = [];
    session_id = attempt.new_session;
    sequence = 0;
  }

  try_reconnect_pool :
      (attempt : Attempt) (m : Manager T)
      → clear_actual (try_reconnect attempt m).1.pool ≡ clear_actual m.pool
  unfolding try_reconnect clear_actual
  try_reconnect_pool attempt m = elim (Option-cases attempt.refreshed_key) [
    | inl missing ↦ ground (arith, missing)
    | inr (key, given) ↦
        ground (arith, given, subscribe_all_pool attempt.socket (reset attempt key m))
  ]

  try_reconnect_lem :
      (attempt : Attempt) (m m' : Manager T)
      → try_reconnect attempt m ≡ (true, m')
      → Tracked m'
        × (m'.pool ≡ clear_actual m.pool)
        × (m'.session_id ≡ attempt.new_session)
        × (m'.sequence ≡ 0)
  unfolding try_reconnect
  try_reconnect_lem attempt m m' h = elim (Option-cases attempt.refreshed_key) [
    | inl missing ↦ absurd (ground (arith, missing))
    | inr (key, given) ↦
        subscribe_all-Tracked attempt.socket (reset attempt key m) m' refl (ground (arith, given))
  ]

  -- What a successful attempt of the reconnect loop leaves.
  pub record Reconnected (attempts : ℕ → Attempt) (m m' : Manager T) : Type 0 where
    pub attempt : ℕ
    pub counted : (1 ≤ attempt) × (attempt ≤ max_retries)
    pub new_id : m'.session_id ≡ (attempts attempt).new_session
    pub from_zero : m'.sequence ≡ 0
    pub tracked : Tracked m'
    pub same_desired : m'.pool ≡ clear_actual m.pool

  reconnect_from_lem :
      (attempts : ℕ → Attempt) (attempt retries : ℕ) (m₀ m m' : Manager T)
      → 1 ≤ attempt
      → attempt + retries ≤ suc max_retries
      → clear_actual m.pool ≡ clear_actual m₀.pool
      → reconnect_from attempts attempt retries m ≡ (true, m')
      → Reconnected attempts m₀ m'
  unfolding reconnect_from
  reconnect_from_lem attempts a zero m₀ m m' lo hi same h = absurd cc
  reconnect_from_lem attempts a (suc retries) m₀ m m' lo hi same h =
      let tried = try_reconnect (attempts a) m in
      elim (Bool-cases tried.0) [
        | inl goes ↦
            let (t, p, s, n) = try_reconnect_lem (attempts a) m m' (ground (arith, goes)) in
            record {
              attempt = a;
              counted = (lo, omega arith);
              new_id = s;
              from_zero = n;
              tracked = t;
              same_desired = p ∙ same;
            }
        | inr fails ↦
            reconnect_from_lem attempts (suc a) retries m₀ tried.1 m' (omega arith) (omega arith)
              (try_reconnect_pool (attempts a) m ∙ same) (ground (arith, fails))
      ]

  -- A reconnect that does not raise made one of its eight attempts with a new session from zero,
  -- kept what is desired, and tracks every difference.
  pub reconnect-Reconnected :
      (attempts : ℕ → Attempt) (m m' : Manager T)
      → reconnect attempts m ≡ (true, m')
      → Reconnected attempts m m'
  unfolding reconnect
  reconnect-Reconnected attempts m m' h =
      reconnect_from_lem attempts 1 max_retries m m m' (omega arith) (omega arith) refl h

module _ {T : Type 0} where
  Tracked-path : (m m' : Manager T) → m ≡ m' → Tracked m → Tracked m'
  Tracked-path m m' e t = subst Tracked e t

  confirm-Tracked :
      (op : ControlOperation) (k : Subscription) (m : Manager T)
      → Tracked m
      → lookup k m.pending ≡ some op
      → Tracked (confirm op k m)
  unfolding confirm confirm_subscribed confirm_unsubscribed
  confirm-Tracked subscribe k m t h j = ground (
    arith,
    t j,
    t k,
    lookup-erase k j m.pending,
    member-add k j m.pool.actual,
    subscription_beq_iff k j,
  )
  confirm-Tracked unsubscribe k m t h j = ground (
    arith,
    t j,
    t k,
    lookup-erase k j m.pending,
    member-discard k j m.pool.actual,
    subscription_beq_iff k j,
  )

module _ {T : Type 0} (code_of msg_of : String → String) where
  -- A response of the broker about a subscription names the operation that is pending for it.
  abbrev pub Honest : Manager T → Fields → Type 0
  Honest m response =
      (tr_id symbol : String) (op : ControlOperation)
      → extract_response_value response "tr_id" ≡ some tr_id
      → extract_response_value response "tr_key" ≡ some symbol
      → response_operation code_of msg_of response (lookup (tr_id, symbol) m.pending) ≡ some op
      → lookup (tr_id, symbol) m.pending ≡ some op

  -- A response to a pending request keeps track.
  handle_json_response-Tracked :
      (response : Fields) (m : Manager T)
      → Tracked m
      → Honest m response
      → Tracked (handle_json_response code_of msg_of response m)
  unfolding handle_json_response
  handle_json_response-Tracked response m t honest =
      let handled = handle_json_response code_of msg_of response m in
      elim (Option-cases (extract_response_value response "tr_id")) [
        | inl missing ↦ Tracked-path m handled (ground (arith, missing)) t
        | inr (tr_id, e) ↦ elim (Option-cases (extract_response_value response "tr_key")) [
          | inl missing ↦ Tracked-path m handled (ground (arith, e, missing)) t
          | inr (symbol, e') ↦
              elim (Option-cases
                (response_operation code_of msg_of response (lookup (tr_id, symbol) m.pending))) [
                  | inl unknown ↦ Tracked-path m handled (ground (arith, e, e', unknown)) t
                  | inr (op, o) ↦
                      Tracked-path (confirm op (tr_id, symbol) m) handled (ground (arith, e, e', o))
                        (confirm-Tracked op (tr_id, symbol) m t (honest tr_id symbol op e e' o))
                ]
        ]
      ]

  unfoldable pub handle_all : List Fields → Manager T → Manager T
  handle_all [] m = m
  handle_all (response ∷ responses) m =
      handle_all responses (handle_json_response code_of msg_of response m)

  abbrev pub AllHonest : Manager T → List Fields → Type 0
  AllHonest m [] = Unit {0}
  AllHonest m (response ∷ responses) =
      Honest m response × AllHonest (handle_json_response code_of msg_of response m) responses

  handle_all-Tracked :
      (responses : List Fields) (m : Manager T)
      → Tracked m
      → AllHonest m responses
      → Tracked (handle_all responses m)
  unfolding handle_all
  handle_all-Tracked [] m t h = t
  handle_all-Tracked (r ∷ responses) m t h =
      handle_all-Tracked responses (handle_json_response code_of msg_of r m)
        (handle_json_response-Tracked r m t h.0) h.1

  -- After a connection that was made, responses that each name the operation pending for their
  -- subscription, and nothing left pending, what is subscribed is what is desired.
  pub connect_settles :
      (attempt : Attempt) (m m' : Manager T) (responses : List Fields)
      → connect attempt m ≡ (true, m')
      → AllHonest m' responses
      → (handle_all responses m').pending ≡ []
      → (k : Subscription)
      → member k (handle_all responses m').pool.actual
        ≡ member k (handle_all responses m').pool.desired
  connect_settles attempt m m' responses h honest done k =
      let p = lookup k (handle_all responses m').pending in
      settled p (ap (lookup k) done ∙ lookup_empty k)
        (handle_all-Tracked responses m' (connect-Tracked attempt m m' h) honest k)
    where
      settled :
          (p : Option ControlOperation)
          → p ≡ none
          → TrackedBy p
              (member k (handle_all responses m').pool.desired)
              (member k (handle_all responses m').pool.actual)
          → member k (handle_all responses m').pool.actual
            ≡ member k (handle_all responses m').pool.desired
      settled none e t = t
      settled (some op) e t = absurd cc
