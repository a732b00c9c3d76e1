-- ===== src/Postgres/Setup.antt =====
-- The setup of `PostgresStorage` in src/txoutbox/adapters/postgres.py: the checks of the
-- constructor, the keyword arguments of `connect`, who closes the pool, and `listen`.
use txoutbox.Base.{
  ℕ, ◌+◌, ◌≡◌, String, Bool, true, false, not, Option, none, some, List, [], ◌∷◌, arith,
  if◌then◌else◌, filter, any, same_text,
}
use txoutbox.Base.Int.{ℤ, pos, lt_ℤ}
use txoutbox.Postgres.Listener.{Listener, init, start}

pub record Options : Type 0 where
  pub table : String
  pub schema : Option String
  pub notify_channel : Option String
  pub visibility_delay : Option ℤ

-- The ValueErrors of the constructor.
pub data SetupError : Type 0 where
  bad_table bad_schema bad_channel bad_delay : SetupError

abbrev pub is_absent_or : (String → Bool) → Option String → Bool
is_absent_or p none = true
is_absent_or p (some s) = p s

abbrev pub is_negative_delay : Option ℤ → Bool
is_negative_delay none = false
is_negative_delay (some d) = lt_ℤ d (pos 0)

-- `is_identifier` is `str.isidentifier`.
unfoldable pub check_options : (String → Bool) → Options → Option SetupError
check_options is_identifier o =
    if not (is_identifier o.table)
    then some bad_table
    else if not (is_absent_or is_identifier o.schema)
    then some bad_schema
    else if not (is_absent_or is_identifier o.notify_channel)
    then some bad_channel
    else if is_negative_delay o.visibility_delay
    then some bad_delay
    else none

-- `_INIT_KWARGS`
abbrev pub init_kwargs : List String
init_kwargs =
    "table" ∷ "schema" ∷ "strict_ordering" ∷ "delete_on_ack" ∷ "visibility_delay" ∷ "notify_channel"
    ∷ []

abbrev pub is_init : String → Bool
is_init k = any (same_text k) init_kwargs

-- The arguments of `create_pool`, and those of the constructor.
unfoldable pub split_kwargs {ℓ} :
    {A : Type ℓ} → List (String × A) → List (String × A) × List (String × A)
split_kwargs kwargs = (filter (λ a. not (is_init a.0)) kwargs, filter (λ a. is_init a.0) kwargs)

-- `_owns_pool`, and how often the pool has been closed.
pub record Ownership : Type 0 where
  pub owns_pool : Bool
  pub pool_closes : ℕ

-- The storage that the constructor makes.
abbrev pub constructed : Ownership
constructed = record { owns_pool = false; pool_closes = 0 }

-- `connect`: `create_pool` raises, the constructor raises, or there is a storage.
pub data Connected : Type 0 where
  no_pool : Connected
  refused : SetupError → Connected
  connected : Ownership → Connected

-- The result, and the number of pools that are then open: a constructor that raises leaves the pool
-- as it is.
unfoldable pub connect : Bool → (String → Bool) → Options → Connected × ℕ
unfolding check_options
connect creates is_identifier o =
    if creates
    then elim (check_options is_identifier o) [
      | some error ↦ (refused error, 1)
      | none ↦ (connected (record constructed { owns_pool = true }), 1)
    ]
    else (no_pool, 0)

unfoldable pub close_pool : Ownership → Ownership
close_pool s =
    if s.owns_pool then record s { owns_pool = false; pool_closes = s.pool_closes + 1 } else s

pub data Listening : Type 0 where
  no_channel not_started : Listening
  listening : Listener → Listening

-- `listen`, where `acquire` and `add_listener` succeed or raise. A channel that was accepted is not
-- empty.
unfoldable pub listen : Option String → Option ℕ → Bool → Bool → Listening
listen none delay acquired added = no_channel
listen (some channel) delay acquired added = elim (start acquired added (init delay)) [
  | none ↦ not_started
  | some l ↦ listening l
]

-- The pool is closed at the first call of `close`, if `connect` made it, and never again.
pub close_once :
    (s : Ownership)
    → ((close_pool s).pool_closes ≡ s.pool_closes + (if s.owns_pool then 1 else 0))
      × (close_pool (close_pool s) ≡ close_pool s)
unfolding close_pool
close_once s = (ground arith, ground arith)

-- A storage that is set up has options that pass each check.
pub checked_lem :
    (is_identifier : String → Bool) (o : Options)
    → check_options is_identifier o ≡ none
    → (is_identifier o.table ≡ true)
      × (is_absent_or is_identifier o.schema ≡ true)
      × (is_absent_or is_identifier o.notify_channel ≡ true)
      × (is_negative_delay o.visibility_delay ≡ false)
unfolding check_options
checked_lem is_identifier o e = ground arith

-- An argument that the constructor refuses leaves an open pool behind, which no storage owns.
pub refused_leaves_pool :
    (is_identifier : String → Bool) (o : Options) (error : SetupError)
    → check_options is_identifier o ≡ some error
    → connect true is_identifier o ≡ (refused error, 1)
unfolding connect
refused_leaves_pool is_identifier o error e = rw (e, connect)
