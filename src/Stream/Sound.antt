-- ===== src/Stream/Sound.antt =====
-- What every operation of a stream keeps.
use okam_ha_native.Base.{
  ℕ, ◌≤◌, Bool, true, false, [], ◌∷◌, ◌≡◌, refl, arith, ltb, if◌then◌else◌, Result, ok, err, length,
  All, All-append, length-append, length-take, take, ◌-◌, Bool-cases, inl, inr,
}
use okam_ha_native.Base.Bytes.{Bytes}
use okam_ha_native.Stream.Units.{preamble}
use okam_ha_native.Stream.Remembered.{IsMedia, note_media-IsMedia, empty-IsMedia}
use okam_ha_native.Stream.{
  max_response_bytes, on_stderr, on_read, subscribed, first_items, queue_size, Viewer, Stream,
  new_stream, Started, raised, no_pipes, runs, start_locked, needs_start, subscribe, acquire,
  without, release, on_chunk, is_empty,
}
use okam_ha_native.Stream.Lengths.{
  length-first_items, without-queues, offered-queues, read-queues, is_empty-map, is_empty-without,
}

-- Every queue holds at most 32 items, the timer runs only while there are no viewers, and the
-- remembered media and the standard error are in bounds.
pub record IsSound (s : Stream) : Type 0 where
  pub queues : All (λ (v : Viewer). length v.1 ≤ queue_size) s.subscribers
  pub timer : s.idle_timer ≡ true → is_empty s.subscribers ≡ true
  pub media : IsMedia s.media
  pub stderr : length s.stderr ≤ max_response_bytes

pub new_stream-IsSound : IsSound new_stream
new_stream-IsSound = record {
  queues = tt;
  timer = λ t. refl;
  media = empty-IsMedia;
  stderr = omega arith;
}

start_locked-IsSound :
    (started : Started) (s : Stream) → IsSound s → IsSound (start_locked started s).1
unfolding start_locked
start_locked-IsSound (raised e) s h = record {
  queues = h.queues;
  timer = h.timer;
  media = empty-IsMedia;
  stderr = omega arith;
}
start_locked-IsSound no_pipes s h = record {
  queues = h.queues;
  timer = h.timer;
  media = empty-IsMedia;
  stderr = omega arith;
}
start_locked-IsSound (runs p) s h = record {
  queues = h.queues;
  timer = h.timer;
  media = empty-IsMedia;
  stderr = omega arith;
}

subscribe-IsSound :
    (id : ℕ) (s : Stream) → s.idle_timer ≡ false → IsSound s → IsSound (subscribe id s)
unfolding subscribe
subscribe-IsSound id s off h = record {
  queues =
      All-append (λ (v : Viewer). length v.1 ≤ queue_size) s.subscribers
        ((id, first_items (preamble s.media)) ∷ []) h.queues
        (length-first_items (preamble s.media), tt);
  timer = λ on. absurd (ground (arith, off, on));
  media = h.media;
  stderr = h.stderr;
}

start_locked-timer :
    (started : Started) (s : Stream) → (start_locked started s).1.idle_timer ≡ s.idle_timer
unfolding start_locked
start_locked-timer (raised e) s = refl
start_locked-timer no_pipes s = refl
start_locked-timer (runs p) s = refl

subscribed-IsSound :
    (id : ℕ) (r : Result (Unit {0}) × Stream)
    → r.1.idle_timer ≡ false
    → IsSound r.1
    → IsSound (subscribed id r).1
unfolding subscribed
subscribed-IsSound id (ok u, s) off h = subscribe-IsSound id s off h
subscribed-IsSound id (err e, s) off h = h

if-IsSound :
    {A : Type 0} (b : Bool) (x y : Result A × Stream)
    → IsSound x.1
    → IsSound y.1
    → IsSound (if b then x else y).1
if-IsSound true x y h k = h
if-IsSound false x y h k = k

if-timer :
    {A : Type 0} (b : Bool) (x y : Result A × Stream)
    → x.1.idle_timer ≡ false
    → y.1.idle_timer ≡ false
    → (if b then x else y).1.idle_timer ≡ false
if-timer true x y h k = h
if-timer false x y h k = k

pub acquire-IsSound :
    (exited : ℕ → Bool) (started : Started) (id : ℕ) (s : Stream)
    → IsSound s
    → IsSound (acquire exited started id s).1
unfolding acquire
acquire-IsSound exited started id s h =
    let idle = record s { idle_timer = false } in
    let sound : IsSound idle = record {
      queues = h.queues;
      timer = λ on. absurd (cc on);
      media = h.media;
      stderr = h.stderr;
    } in
    let start = start_locked started idle in
    let need = needs_start exited s.process in
    if-IsSound s.closed _ _ h (
      subscribed-IsSound id (if need then start else (ok tt, idle))
        (if-timer need start (ok tt, idle) (start_locked-timer started idle) refl)
        (if-IsSound need start (ok tt, idle) (start_locked-IsSound started idle sound) sound))

pub release-IsSound : (id : ℕ) (s : Stream) → IsSound s → IsSound (release id s)
unfolding release
release-IsSound id s h = record {
  queues = without-queues id s.subscribers h.queues;
  timer = λ on. elim (Bool-cases (is_empty (without id s.subscribers))) [
    | inl none_left ↦ none_left
    | inr some_left ↦ is_empty-without id s.subscribers (h.timer (ground (arith, some_left, on)))
  ];
  media = h.media;
  stderr = h.stderr;
}

pub on_chunk-IsSound : (bytes : Bytes) (s : Stream) → IsSound s → IsSound (on_chunk bytes s)
unfolding on_chunk
on_chunk-IsSound bytes s h = record {
  queues = offered-queues bytes s.subscribers h.queues;
  timer = λ on. is_empty-map _ s.subscribers (h.timer on);
  media = note_media-IsMedia bytes s.media h.media;
  stderr = h.stderr;
}

pub on_read-IsSound : (id : ℕ) (s : Stream) → IsSound s → IsSound (on_read id s)
unfolding on_read
on_read-IsSound id s h = record {
  queues = read-queues id s.subscribers h.queues;
  timer = λ on. is_empty-map _ s.subscribers (h.timer on);
  media = h.media;
  stderr = h.stderr;
}

pub on_stderr-IsSound : (block : Bytes) (s : Stream) → IsSound s → IsSound (on_stderr block s)
unfolding on_stderr
on_stderr-IsSound block s h = elim (Bool-cases (ltb 0 (max_response_bytes - length s.stderr))) [
  | inl room ↦ rw room (record {
    queues = h.queues;
    timer = h.timer;
    media = h.media;
    stderr = omega (
      arith,
      h.stderr,
      length-append s.stderr (take (max_response_bytes - length s.stderr) block),
      length-take (max_response_bytes - length s.stderr) block,
    );
  })
  | inr full ↦ rw full h
]
