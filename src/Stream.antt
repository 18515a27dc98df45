-- ===== src/Stream.antt =====
-- src/okam_native/session.py: `NativeStreamSession`, the stream that several viewers share.
pub mod Units
pub mod Remembered
pub mod Lengths
pub mod Sound
pub mod Invariant
pub mod Queue
pub mod Race
pub mod Snapshot
use okam_ha_native.Base.{
  ℕ, zero, take, is_some, ◌+◌, ◌-◌, Bool, true, false, not, ◌&&◌, ◌||◌, List, [], ◌∷◌, ◌++◌, Option,
  none, some, map, ltb, ◌==◌, if◌then◌else◌, Error, Result, ok, err, p2p_error, length, drop,
}
use okam_ha_native.Base.Action.{Action}
use okam_ha_native.Base.Bytes.{Bytes}
use okam_ha_native.Base.Int.{ℤ, pos}
use okam_ha_native.Base.Lines.{last_read, split_lines}
use okam_ha_native.Json.{Json, object, Members, get, as_bool}
use Units.{Media, empty, note_media, preamble}

-- What a viewer's queue holds: a chunk, or `_END`.
pub data Item : Type 0 where
  chunk : Bytes → Item
  end_of_stream : Item

abbrev pub queue_size : ℕ
queue_size = 32

-- `put_nowait`; a full queue loses its oldest item first.
unfoldable pub offer : Item → List Item → List Item
offer x q = if ltb (length q) queue_size then q ++ (x ∷ []) else drop 1 q ++ (x ∷ [])

-- A viewer: the id of the subscription, and the queue.
abbrev pub Viewer : Type 0
Viewer = ℕ × List Item

-- A process is known by a number. `idle_timer` says whether the timer runs.
pub record Stream : Type 0 where
  pub process : Option ℕ
  pub subscribers : List Viewer
  pub idle_timer : Bool
  pub stderr : Bytes
  pub clean_disconnect : Option Bool
  pub failed : Bool
  pub media_ready : Bool
  pub media : Media
  pub closed : Bool

abbrev pub new_stream : Stream
new_stream = record {
  process = none;
  subscribers = [];
  idle_timer = false;
  stderr = [];
  clean_disconnect = none;
  failed = false;
  media_ready = false;
  media = empty;
  closed = false;
}

-- What the starter of the helper does: it raises, its pipes are missing, or a process runs.
pub data Started : Type 0 where
  raised : Error → Started
  no_pipes : Started
  runs : ℕ → Started

abbrev stale : Stream → Stream
stale s = record s {
  stderr = [];
  clean_disconnect = none;
  failed = false;
  media_ready = false;
  media = empty;
}

-- `_start_locked`
unfoldable pub start_locked : Started → Action Stream (Unit {0})
start_locked (raised e) s = (err e, stale s)
start_locked no_pipes s = (err (p2p_error "native stream helper pipes are unavailable"), stale s)
start_locked (runs p) s = (ok tt, record (stale s) { process = some p })

-- `self._process is None or self._process.poll() is not None`; `exited` answers `poll`.
abbrev pub needs_start : (ℕ → Bool) → Option ℕ → Bool
needs_start exited none = true
needs_start exited (some p) = exited p

abbrev first_items : Bytes → List Item
first_items [] = []
first_items (b ∷ bs) = chunk (b ∷ bs) ∷ []

-- A viewer comes in; `id` is its new identifier, a random UUID.
unfoldable pub subscribe : ℕ → Stream → Stream
subscribe id s = record s {
  subscribers = s.subscribers ++ ((id, first_items (preamble s.media)) ∷ []);
}

subscribed : ℕ → Result (Unit {0}) × Stream → Result ℕ × Stream
unfolding subscribe
subscribed id (ok u, s) = (ok id, subscribe id s)
subscribed id (err e, s) = (err e, s)

unfoldable pub acquire : (ℕ → Bool) → Started → ℕ → Action Stream ℕ
unfolding subscribed start_locked
acquire exited started id s =
    let idle = record s { idle_timer = false } in
    if s.closed
    then (err (p2p_error "native stream session is closed"), s)
    else subscribed id
        (if needs_start exited s.process then start_locked started idle else (ok tt, idle))

unfoldable pub without : ℕ → List Viewer → List Viewer
without id [] = []
without id ((k, q) ∷ viewers) =
    let rest = without id viewers in if k == id then rest else (k, q) ∷ rest

abbrev pub has_process : Option ℕ → Bool
has_process none = false
has_process (some p) = true

abbrev pub is_empty : List Viewer → Bool
is_empty [] = true
is_empty (v ∷ vs) = false

-- The last viewer to go starts the timer.
unfoldable pub release : ℕ → Stream → Stream
unfolding without
release id s =
    let viewers = without id s.subscribers in
    record s {
      subscribers = viewers;
      idle_timer =
          if is_empty viewers && has_process s.process && not s.closed then true else s.idle_timer;
    }

-- A chunk that `_pump` reads. The chunk is put into the queues after the lock is given up; a viewer
-- that goes in between does not read its queue any more.
unfoldable pub on_chunk : Bytes → Stream → Stream
unfolding offer
on_chunk bytes s = record s {
  media_ready = true;
  media = note_media bytes s.media;
  subscribers = map (λ v. (v.0, offer (chunk bytes) v.1)) s.subscribers;
}

abbrev is_process : ℕ → Option ℕ → Bool
is_process p none = false
is_process p (some q) = q == p

abbrev pub max_response_bytes : ℕ
max_response_bytes = 65536

-- A block that `_drain_stderr` reads, of which the first bytes are kept up to the limit.
unfoldable pub on_stderr : Bytes → Stream → Stream
on_stderr block s =
    let remaining = max_response_bytes - length s.stderr in
    if ltb 0 remaining then record s { stderr = s.stderr ++ take remaining block } else s

-- A summary is an object with the key `disconnected`.
abbrev summary_in : Option Json → Option Members
summary_in (some (object m)) = if is_some (get "disconnected" m) then some m else none
summary_in _ = none

-- What the last summary says of the disconnection, if it is a Boolean.
abbrev pub disconnected_in : (Bytes → Option Json) → Bytes → Option Bool
disconnected_in loads stderr = elim (last_read (λ l. summary_in (loads l)) (split_lines stderr)) [
  | none ↦ none
  | some m ↦ as_bool (get "disconnected" m)
]

abbrev is_zero : ℤ → Bool
is_zero (pos zero) = true
is_zero _ = false

-- `_parse_summary_locked`; `loads` decodes and parses a line, `none` for what it skips.
unfoldable pub parse_summary_locked : (Bytes → Option Json) → ℤ → Stream → Stream
parse_summary_locked loads returncode s = record s {
  clean_disconnect = elim (disconnected_in loads s.stderr) [
    | none ↦ s.clean_disconnect
    | some b ↦ some b
  ];
  failed = s.failed || not (is_zero returncode);
}

-- The `finally` of `_pump`, for the process `p`. The viewers get `_END` and are forgotten.
unfoldable pub on_exit : (Bytes → Option Json) → ℕ → ℤ → Stream → Stream
unfolding parse_summary_locked
on_exit loads p returncode s =
    parse_summary_locked loads returncode
      (record s { subscribers = []; process = if is_process p s.process then none else s.process })

-- `_stop_if_idle`: the timer has run out; `true` if the process is told to end.
unfoldable pub stop_if_idle : Stream → Bool × Stream
stop_if_idle s = (is_empty s.subscribers && not s.closed, record s { idle_timer = false })

unfoldable pub close : Stream → Stream
close s = record s { closed = true; idle_timer = false }

-- A viewer's turn of `__iter__`: it waits for a chunk, ends, or yields one.
pub data Turn : Type 0 where
  waits : Turn
  ends : Turn
  yields : Bytes → Turn

-- The head of the queue, and what stays in it.
unfoldable pub next_chunk : List Item → Turn × List Item
next_chunk [] = (waits, [])
next_chunk (end_of_stream ∷ q) = (ends, q)
next_chunk (chunk b ∷ q) = (yields b, q)

-- The viewer `id` takes its turn; only its queue is read.
unfoldable pub on_read : ℕ → Stream → Stream
unfolding next_chunk
on_read id s = record s {
  subscribers = map (λ v. (v.0, if v.0 == id then (next_chunk v.1).1 else v.1)) s.subscribers;
}

-- `StreamSubscription.close`: whether it was closed before, and its queue, which ends with `_END`.
unfoldable pub close_subscription : ℕ → Bool × List Item → Stream → (Bool × List Item) × Stream
unfolding offer release
close_subscription id (true, q) s = ((true, q), s)
close_subscription id (false, q) s = ((true, offer end_of_stream q), release id s)

-- `_terminate`: the signals that a process gets; `in_time` tells that it ends within ten seconds.
pub data Signal : Type 0 where
  terminate : Signal
  kill : Signal

unfoldable pub signals : (ℕ → Bool) → Bool → Option ℕ → List Signal
signals exited in_time none = []
signals exited in_time (some p) =
    if exited p then [] else if in_time then terminate ∷ [] else terminate ∷ kill ∷ []
