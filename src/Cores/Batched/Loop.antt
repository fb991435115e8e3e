-- ===== src/Cores/Batched/Loop.antt =====
-- What `Run` hands to the flush callback, over every interleaving of senders, receives and ticks.
use mathlib.Core.List.{append_assoc, append-nil, map-append}
use aegis_panel.Common.{
  ℕ, ◌+◌, ◌≤◌, ◌<◌, ℕ_discrete, GoMap, ◌≡◌, refl, sym, subst, ◌∙◌, ap, Bool-cases, List, [], ◌∷◌,
  ◌++◌, map, length, flatten, flatten-append, leb, arith, if◌then◌else◌, ℤ, pos, negsuc, inl, inr,
  length-put-le, length-remove-le, length-append,
}
use aegis_panel.Cores.Batched.Absorb.{absorb_all-append}
use aegis_panel.Cores.Batched.{
  Delta, BatchedApplier, stamp, enqueue, absorb_into, absorb_all, absorb, merge, values,
  flush_pending, new_batched_applier, flush, drain, Turn, send, receive, tick, receive_next, turn,
  run,
}

-- What the channel took from one turn, and from a run.
abbrev pub accepted : Turn → BatchedApplier → List Delta
accepted (send now d) b = if leb b.max_queue (length b.queue) then [] else stamp now d ∷ []
accepted _ b = []

pub sent : List Turn → BatchedApplier → List Delta
sent [] b = []
sent (t ∷ ts) b = accepted t b ++ sent ts (turn t b)

-- The snapshot that one window of deltas makes.
abbrev pub snapshot : List Delta → List Delta
snapshot w = values (absorb_all w [])

-- The deltas `r` have been cut into windows, in order: each of `windows` was flushed, `rest` is
-- pending, and what follows is still in the channel.
pub record Windows (r : List Delta) (b : BatchedApplier) : Type 0 where
  pub windows : List (List Delta)
  pub rest : List Delta
  pub whole : flatten windows ++ (rest ++ b.queue) ≡ r
  pub flushes : b.flushed ≡ map snapshot windows
  pub left : b.pending ≡ absorb_all rest []

flush-Windows : (r : List Delta) (b : BatchedApplier) → Windows r b → Windows r (flush b)
unfolding flush absorb_all
flush-Windows r b w = go b.pending refl
  where
    go : (m : GoMap ℕ Delta) → b.pending ≡ m → Windows r (flush_pending m b)
    go [] e = w
    go (x ∷ m) e =
        let q : values (x ∷ m) ≡ snapshot w.rest = ap values (sym e ∙ w.left) in
        record {
          windows = w.windows ++ w.rest ∷ [];
          rest = [];
          whole = simp (flatten-append, append_assoc, append-nil) w.whole;
          flushes =
              rw (w.flushes, map-append snapshot w.windows (w.rest ∷ []))
                (ap (λ v. map snapshot w.windows ++ v ∷ []) q);
          left = refl;
        }

absorb-Windows :
    (r : List Delta) (b : BatchedApplier) (d : Delta) (ds : List Delta)
    → b.queue ≡ d ∷ ds
    → Windows r b
    → Windows r (absorb d (record b { queue = ds }))
unfolding absorb absorb_all
absorb-Windows r b d ds e w = record {
  windows = w.windows;
  rest = w.rest ++ d ∷ [];
  whole = simp append_assoc (subst (λ q. flatten w.windows ++ (w.rest ++ q) ≡ r) e w.whole);
  flushes = w.flushes;
  left = rw (absorb_all-append w.rest (d ∷ []) []) (ap (absorb_into d) w.left);
}

receive-Windows :
    (r : List Delta) (b : BatchedApplier) (q : List Delta)
    → b.queue ≡ q
    → Windows r b
    → Windows r (receive_next q b)
unfolding receive_next
receive-Windows r b [] e w = w
receive-Windows r b (d ∷ ds) e w =
    let b' : BatchedApplier = absorb d (record b { queue = ds }) in
    let w' : Windows r b' = absorb-Windows r b d ds e w in
    elim (Bool-cases (leb b'.max_queue (length b'.pending))) [
      | inl full ↦ rw full (flush-Windows r b' w')
      | inr room ↦ rw room w'
    ]

turn-Windows :
    (r : List Delta) (t : Turn) (b : BatchedApplier)
    → Windows r b
    → Windows (r ++ accepted t b) (turn t b)
unfolding turn
turn-Windows r receive b w = rw append-nil (receive-Windows r b b.queue refl w)
turn-Windows r tick b w = rw append-nil (flush-Windows r b w)
turn-Windows r (send now d) b w = elim (Bool-cases (leb b.max_queue (length b.queue))) [
  | inl full ↦ rw (full, turn, enqueue) (rw append-nil w)
  | inr room ↦
      rw (room, turn, enqueue)
        (record {
          windows = w.windows;
          rest = w.rest;
          whole =
              rw (← append_assoc)
                (rw (← append_assoc) (ap (λ l. l ++ stamp now d ∷ []) (rw append_assoc w.whole)));
          flushes = w.flushes;
          left = w.left;
        })
]

drain-Windows : (r : List Delta) (b : BatchedApplier) → Windows r b → Windows r (drain b)
unfolding drain
drain-Windows r b w = record {
  windows = w.windows;
  rest = w.rest ++ b.queue;
  whole = simp append-nil w.whole;
  flushes = w.flushes;
  left = rw (w.left, absorb_all-append w.rest b.queue []) refl;
}

run_from-Windows :
    (r : List Delta) (ts : List Turn) (b : BatchedApplier)
    → Windows r b
    → Windows (r ++ sent ts b) (run ts b)
unfolding run sent
run_from-Windows r [] b w = rw append-nil (drain-Windows r b w)
run_from-Windows r (t ∷ ts) b w =
    rw (← append_assoc) (run_from-Windows (r ++ accepted t b) ts (turn t b) (turn-Windows r t b w))

-- For a new applier, over every interleaving of senders, receives and ticks, the deltas that the
-- channel took are cut into consecutive windows: the snapshots handed to the callback are those of
-- the windows, in order, and what the last, unflushed window leaves is pending.
pub run-Windows :
    (window max_queue : ℤ) (ts : List Turn)
    → let b = new_batched_applier window max_queue in Windows (sent ts b) (run ts b)
unfolding new_batched_applier absorb_all
run-Windows window max_queue ts =
    run_from-Windows [] ts (new_batched_applier window max_queue)
      (record { windows = []; rest = []; whole = refl; flushes = refl; left = refl })

-- After each turn there is room: fewer than `maxQueue` users pending, at most `maxQueue` queued.
pub record Bounded (b : BatchedApplier) : Type 0 where
  pub capacity : 0 < b.max_queue
  pub pending_room : length b.pending < b.max_queue
  pub queue_room : length b.queue ≤ b.max_queue

absorb_into-length : (d : Delta) (m : GoMap ℕ Delta) → length (absorb_into d m) ≤ length m + 1
unfolding absorb_into merge
absorb_into-length d m =
    ground (arith, length-put-le ℕ_discrete d.user_id d m, length-remove-le ℕ_discrete d.user_id m)

flush-Bounded :
    (b : BatchedApplier) → 0 < b.max_queue → length b.queue ≤ b.max_queue → Bounded (flush b)
unfolding flush
flush-Bounded b h q = go b.pending refl
  where
    go : (m : GoMap ℕ Delta) → b.pending ≡ m → Bounded (flush_pending m b)
    go [] e = record { capacity = h; pending_room = rw e h; queue_room = q }
    go (x ∷ m) e = record { capacity = h; pending_room = h; queue_room = q }

receive-Bounded :
    (q : List Delta) (b : BatchedApplier) → b.queue ≡ q → Bounded b → Bounded (receive_next q b)
unfolding receive_next absorb
receive-Bounded [] b e v = v
receive-Bounded (d ∷ ds) b e v =
    let b' : BatchedApplier = absorb d (record b { queue = ds }) in
    let shorter : length ds ≤ b.max_queue = omega (arith, ap length e, v.queue_room) in
    elim (Bool-cases (leb b'.max_queue (length b'.pending))) [
      | inl full ↦ rw full (flush-Bounded b' v.capacity shorter)
      | inr room ↦
          rw room
            (record { capacity = v.capacity; pending_room = ground arith; queue_room = shorter })
    ]

-- Every turn keeps the applier bounded, whoever sends and whenever the ticker fires.
pub turn-Bounded : (t : Turn) (b : BatchedApplier) → Bounded b → Bounded (turn t b)
unfolding turn enqueue
turn-Bounded receive b v = receive-Bounded b.queue b refl v
turn-Bounded tick b v = flush-Bounded b v.capacity v.queue_room
turn-Bounded (send now d) b v = elim (Bool-cases (leb b.max_queue (length b.queue))) [
  | inl full ↦ rw (full, turn) v
  | inr room ↦
      rw (room, turn)
        (record {
          capacity = v.capacity;
          pending_room = v.pending_room;
          queue_room = ground (arith, length-append b.queue (stamp now d ∷ []));
        })
]

pub new-Bounded : (window max_queue : ℤ) → Bounded (new_batched_applier window max_queue)
unfolding new_batched_applier
new-Bounded window (pos n) = ground arith
new-Bounded window (negsuc n) = ground arith
