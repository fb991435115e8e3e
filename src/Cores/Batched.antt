-- ===== src/Cores/Batched.antt =====
-- backend/internal/cores/batched.go: deltas to users are collected over a window and handed to a
-- flush callback together. The channel is a list, oldest first; the callback is seen as the log of
-- the snapshots handed to it, so what it returns (its error is logged and dropped) plays no part.
-- User ids are numbers, 0 the zero UUID; times are numbers, 0 the zero time.
pub mod Absorb
pub mod Loop
mod Tests
use aegis_panel.Common.{
  ℕ, ℕ_discrete, String, GoMap, get, put, remove, Bool, true, false, ◌||◌, ◌&&◌, Option, none, some,
  List, [], ◌∷◌, ◌++◌, map, length, leb, ◌==◌, if◌then◌else◌, ℤ, is_below, pos,
}

pub data DeltaKind : Type 0 where
  add_user remove_user set_limit : DeltaKind

pub record Delta : Type 0 where
  pub kind : DeltaKind
  pub user_id : ℕ
  pub payload : String
  pub enqueued : ℕ

pub record BatchedApplier : Type 0 where
  pub window : ℕ
  pub max_queue : ℕ
  pub queue : List Delta
  pub pending : GoMap ℕ Delta
  pub flushed : List (List Delta)

-- window <= 0 and maxQueue <= 0 take the defaults, 20 s and 1000.
or_default : ℤ → ℕ → ℕ
or_default (pos n) d = if n == 0 then d else n
or_default _ d = d

pub new_batched_applier : ℤ → ℤ → BatchedApplier
unfolding or_default
new_batched_applier window max_queue = record {
  window = or_default window 20_000_000_000;
  max_queue = or_default max_queue 1000;
  queue = [];
  pending = [];
  flushed = [];
}

abbrev pub is_add : DeltaKind → Bool
is_add add_user = true
is_add _ = false

abbrev pub is_remove : DeltaKind → Bool
is_remove remove_user = true
is_remove _ = false

-- The two kinds cancel: an addition and a removal, in either order.
abbrev pub cancels : DeltaKind → DeltaKind → Bool
cancels old new = (is_add old && is_remove new) || (is_remove old && is_add new)

abbrev pub stamp : ℕ → Delta → Delta
stamp now d = record d { enqueued = if d.enqueued == 0 then now else d.enqueued }

-- `none` where the send blocks: the channel holds `maxQueue` deltas.
pub enqueue : ℕ → Delta → BatchedApplier → Option BatchedApplier
enqueue now d b =
    if leb b.max_queue (length b.queue)
    then none
    else some (record b { queue = b.queue ++ stamp now d ∷ [] })

merge : Option Delta → Delta → GoMap ℕ Delta → GoMap ℕ Delta
unfolding put remove
merge none d m = put ℕ_discrete d.user_id d m
merge (some old) d m =
    if cancels old.kind d.kind then remove ℕ_discrete d.user_id m else put ℕ_discrete d.user_id d m

pub absorb_into : Delta → GoMap ℕ Delta → GoMap ℕ Delta
unfolding merge get
absorb_into d m = merge (get ℕ_discrete d.user_id m) d m

pub absorb : Delta → BatchedApplier → BatchedApplier
unfolding absorb_into
absorb d b = record b { pending = absorb_into d b.pending }

-- The map's values, in the order of the range.
pub values : GoMap ℕ Delta → List Delta
values [] = []
values ((_, d) ∷ m) = d ∷ values m

pub flush_pending : GoMap ℕ Delta → BatchedApplier → BatchedApplier
unfolding values
flush_pending [] b = b
flush_pending m b = record b { pending = []; flushed = b.flushed ++ values m ∷ [] }

pub flush : BatchedApplier → BatchedApplier
unfolding flush_pending
flush b = flush_pending b.pending b

pub absorb_all : List Delta → GoMap ℕ Delta → GoMap ℕ Delta
absorb_all [] m = m
absorb_all (d ∷ ds) m = absorb_all ds (absorb_into d m)

-- What is left in the channel is absorbed, and not flushed.
pub drain : BatchedApplier → BatchedApplier
unfolding absorb_all
drain b = record b { queue = []; pending = absorb_all b.queue b.pending }

-- What happens next: a caller sends a delta at a time, or the select in `Run` takes a delta off
-- the channel or hears the ticker.
pub data Turn : Type 0 where
  send : ℕ → Delta → Turn
  receive tick : Turn

receive_next : List Delta → BatchedApplier → BatchedApplier
unfolding absorb flush
receive_next [] b = b
receive_next (d ∷ ds) b =
    let b' = absorb d (record b { queue = ds }) in
    if leb b'.max_queue (length b'.pending) then flush b' else b'

after_send : BatchedApplier → Option BatchedApplier → BatchedApplier
after_send b none = b
after_send b (some b') = b'

-- A blocked sender, and a receive from an empty channel, change nothing.
pub turn : Turn → BatchedApplier → BatchedApplier
unfolding receive_next flush enqueue after_send
turn (send now d) b = after_send b (enqueue now d b)
turn receive b = receive_next b.queue b
turn tick b = flush b

-- `Run`, for what happens until the context is done.
pub run : List Turn → BatchedApplier → BatchedApplier
unfolding turn drain
run [] b = drain b
run (t ∷ ts) b = run ts (turn t b)

pub queue_len : BatchedApplier → ℕ
queue_len b = length b.queue

pub pending_len : BatchedApplier → ℕ
pending_len b = length b.pending

pub pending_deltas : BatchedApplier → List Delta
unfolding values
pending_deltas b = values b.pending
