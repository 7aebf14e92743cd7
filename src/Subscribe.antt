-- ===== src/Subscribe.antt =====
-- crates/svdc-subscribe (lib.rs, channels.rs): subscriptions with a cursor over the tick buffer. A
-- subscription holds a shared handle on the buffer, so each read takes the buffer as it stands then.
pub mod Sorted
pub mod Delivery
pub mod Reread
pub mod Stall
mod Tests
use svdc.Base.{
  ℕ, ◌^◌, ◌-◌, ltb, leb, ◌==◌, if◌then◌else◌, Bool, true, false, ◌||◌, Option, none, some, List, [],
  ◌∷◌,
}
use svdc.Core.Tick.{TickRecord}
use svdc.Align.Buffer.{TickBuffer, recent}

pub data ChannelSet : Type 0 where
  all : ChannelSet
  specific : List ℕ → ChannelSet

-- `ids.contains(&channel_id)`
abbrev pub contains_id : List ℕ → ℕ → Bool
contains_id [] channel_id = false
contains_id (id ∷ ids) channel_id = (id == channel_id) || contains_id ids channel_id

abbrev pub contains : ChannelSet → ℕ → Bool
contains all channel_id = true
contains (specific ids) channel_id = contains_id ids channel_id

abbrev pub usize_max : ℕ
usize_max = 2 ^ 64 - 1

-- without the handle on the buffer
pub record Subscription : Type 0 where
  pub cursor : Option ℕ
  pub channels : ChannelSet

-- `InProcessSubscriber::subscribe`
abbrev pub subscribe : ChannelSet → Subscription
subscribe channels = record { cursor = none; channels = channels }

unfoldable pub read_latest : Subscription → TickBuffer → ℕ → List TickRecord
unfolding recent
read_latest s buffer k = recent buffer k

-- the filter of `read_since`
unfoldable pub is_fresh : Option ℕ → TickRecord → Bool
is_fresh none r = true
is_fresh (some c) r = ltb c r.tick_id

unfoldable pub filter_fresh : Option ℕ → List TickRecord → List TickRecord
unfolding is_fresh
filter_fresh cursor [] = []
filter_fresh cursor (r ∷ rest) =
    let kept = filter_fresh cursor rest in if is_fresh cursor r then r ∷ kept else kept

-- `sort_by_key(|r| r.tick_id)`, the standard library's stable sort
unfoldable pub insert_by_key : TickRecord → List TickRecord → List TickRecord
insert_by_key r [] = r ∷ []
insert_by_key r (x ∷ rest) =
    let later = insert_by_key r rest in if leb r.tick_id x.tick_id then r ∷ x ∷ rest else x ∷ later

unfoldable pub sort_by_key : List TickRecord → List TickRecord
unfolding insert_by_key
sort_by_key [] = []
sort_by_key (r ∷ rest) = insert_by_key r (sort_by_key rest)

-- `if let Some(last) = fresh.last()`
unfoldable pub cursor_after : Option ℕ → List TickRecord → Option ℕ
cursor_after cursor [] = cursor
cursor_after cursor (r ∷ rest) = cursor_after (some r.tick_id) rest

unfoldable pub read_since : Subscription → TickBuffer → List TickRecord × Subscription
unfolding recent filter_fresh sort_by_key cursor_after
read_since s buffer =
    let newest = recent buffer usize_max in
    let fresh = sort_by_key (filter_fresh s.cursor newest) in
    (fresh, record s { cursor = cursor_after s.cursor fresh })

-- `Subscription::cursor` and `has_started`
unfoldable pub cursor_or_zero : Subscription → ℕ
cursor_or_zero s = elim s.cursor [ none ↦ 0 | some c ↦ c ]

unfoldable pub has_started : Subscription → Bool
has_started s = elim s.cursor [ none ↦ false | some c ↦ true ]
