-- ===== src/Sync/Staleness.antt =====
-- shannon/services/sync/staleness.py: whether a snapshot is older than what is already stored.
-- A time is a number of microseconds in UTC, which is what `as_utc` makes of it.
use shannon_bot.Base.{Bool, Option, arith, false, if◌then◌else◌, ltb, none, some, true, ℕ, ◌≡◌, ◌≢◌}

unfoldable pub arrived_earlier : Option ℕ → Option ℕ → Bool
arrived_earlier none put_on = false
arrived_earlier (some arrived) none = false
arrived_earlier (some arrived) (some put_on) = ltb arrived put_on

unfoldable pub is_superseded : Option ℕ → Option ℕ → Option ℕ → Option ℕ → Bool
unfolding arrived_earlier
is_superseded none stored arrived put_on = false
is_superseded (some incoming) none arrived put_on = false
is_superseded (some incoming) (some stored) arrived put_on =
    if ltb incoming stored
    then true
    else if ltb stored incoming
    then false
    else arrived_earlier arrived put_on

-- What the row keeps of the last snapshot that was applied to it.
pub record Applied : Type 0 where
  pub updated_at : Option ℕ
  pub arrived : Option ℕ

-- Of two deliveries with their stamps, each superseded by the other never happens.
pub is_superseded-asym :
    (a b : Applied)
    → is_superseded a.updated_at b.updated_at a.arrived b.arrived ≡ true
    → is_superseded b.updated_at a.updated_at b.arrived a.arrived ≡ false
unfolding is_superseded
is_superseded-asym a b h = ground arith

-- A delivery is stamped, and numbered in its order of arrival.
abbrev pub stamped : ℕ → ℕ → Applied
stamped at number = record { updated_at = some at; arrived = some number }

-- The row takes a delivery's stamps unless the delivery is superseded.
unfoldable pub settle : Applied → Applied → Applied
unfolding is_superseded
settle row d = if is_superseded d.updated_at row.updated_at d.arrived row.arrived then row else d

abbrev row_of : Option ℕ → Option ℕ → Applied
row_of at number = record { updated_at = at; arrived = number }

settle_of_comm :
    (u r : Option ℕ) (at at' n n' : ℕ)
    → n ≢ n'
    → settle (settle (row_of u r) (stamped at n)) (stamped at' n')
      ≡ settle (settle (row_of u r) (stamped at' n')) (stamped at n)
unfolding settle is_superseded arrived_earlier
settle_of_comm none r at at' n n' ne = ground arith
settle_of_comm (some u) none at at' n n' ne = ground arith
settle_of_comm (some u) (some r) at at' n n' ne = ground arith

-- Two stamped deliveries of different numbers leave the row's stamps the same in either order.
pub settle_comm :
    (row : Applied) (at at' n n' : ℕ)
    → n ≢ n'
    → settle (settle row (stamped at n)) (stamped at' n')
      ≡ settle (settle row (stamped at' n')) (stamped at n)
settle_comm row at at' n n' ne = settle_of_comm row.updated_at row.arrived at at' n n' ne
