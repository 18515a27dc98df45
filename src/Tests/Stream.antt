-- ===== src/Tests/Stream.antt =====
-- Runs of a stream, and a release report.
use okam_ha_native.Acceptance.{evaluate, required_gates, AllTrue, evaluate_exact}
use okam_ha_native.Base.Int.{pos}
use okam_ha_native.Json.{object, number, Members, no_members, member, get}
use okam_ha_native.Base.{none, true, false, [], ◌∷◌, ◌++◌, ◌≡◌, ◌↔◌, refl, arith, some, map}
use okam_ha_native.Base.Bytes.{Bytes, equal}
use okam_ha_native.Stream.{
  on_exit, is_empty, chunk, Viewer, Stream, new_stream, runs, acquire, release, subscribe, on_chunk,
  offer,
}
use okam_ha_native.Stream.Invariant.{Reached, Reached-IsSound}
use okam_ha_native.Stream.Sound.{IsSound}
use okam_ha_native.Stream.Queue.{newest, on_chunks, on_chunks-newest}
use okam_ha_native.Stream.Race.{on_exit_stale}
use okam_ha_native.Stream.Units.{note_media, preamble, empty}
use okam_ha_native.Stream.Units.Cut.{note_chunks, note_chunks-joined}
use okam_ha_native.Stream.Units.Pieces.{joined}

-- A parameter set, a picture parameter set and a key frame come in, in two chunks.
abbrev first : Bytes
first = 0 ∷ 0 ∷ 1 ∷ 0x67 ∷ 9 ∷ 0 ∷ 0 ∷ 1 ∷ 0x68 ∷ 8 ∷ 0 ∷ []

abbrev second : Bytes
second = 0 ∷ 1 ∷ 0x65 ∷ 7 ∷ 0 ∷ 0 ∷ 1 ∷ 0x41 ∷ []

abbrev viewed : Stream
viewed = (acquire (λ _. false) (runs 1) 10 new_stream).1

abbrev played : Stream
played = on_chunk second (on_chunk first viewed)

Reached-IsSound_example : IsSound (release 10 played)
Reached-IsSound_example = Reached-IsSound (
    Reached.released 10 (
      Reached.pumped second
        (Reached.pumped first (Reached.acquired (λ _. false) (runs 1) 10 Reached.made))))

-- The next viewer starts with the two parameter sets and the key frame, without the unit after it.
second_viewer :
    (acquire (λ _. false) (runs 2) 11 played).1.subscribers
    ≡ (10, chunk first ∷ chunk second ∷ [])
      ∷ (11, chunk (0 ∷ 0 ∷ 1 ∷ 0x67 ∷ 9 ∷ 0 ∷ 0 ∷ 1 ∷ 0x68 ∷ 8 ∷ 0 ∷ 0 ∷ 1 ∷ 0x65 ∷ 7 ∷ []) ∷ [])
      ∷ []
unfolding acquire subscribe on_chunk offer note_media preamble equal
second_viewer = refl

note_chunks-joined_example :
    note_chunks (first ∷ second ∷ []) empty ≡ note_media (joined (first ∷ second ∷ [])) empty
note_chunks-joined_example = note_chunks-joined first (second ∷ []) empty (omega arith)

abbrev waiting : Stream
waiting = record new_stream { subscribers = (10, []) ∷ [] }

on_chunks-newest_example :
    (on_chunks (first ∷ second ∷ []) waiting).subscribers
    ≡ map
        (λ (v : Viewer). (v.0, newest (v.1 ++ map chunk (first ∷ second ∷ []))))
        waiting.subscribers
on_chunks-newest_example = on_chunks-newest (first ∷ second ∷ []) waiting (omega arith, tt)

-- A gate that is 1 and not `true` fails.
abbrev report : Members
report = member "gates" (object (member "decode_stream" (number (pos 1)) no_members)) no_members

evaluate_exact_example : ((evaluate report).0 ≡ true) ↔ (
    (gates : Members) × (get "gates" report ≡ some (object gates)) × AllTrue gates required_gates)
evaluate_exact_example = evaluate_exact report

report_fails : (evaluate report) ≡ (false, required_gates)
unfolding evaluate get
report_fails = refl

open_viewed : viewed.closed ≡ false
unfolding acquire
open_viewed = refl

process_viewed : viewed.process ≡ some 1
unfolding acquire
process_viewed = refl

-- Process 1 has exited when viewer 11 comes, and its thread cleans up after process 2 has started.
on_exit_stale_example :
    (is_empty (acquire (λ _. true) (runs 2) 11 viewed).1.subscribers ≡ false)
    × ((on_exit (λ _. none) 1 (pos 1) (acquire (λ _. true) (runs 2) 11 viewed).1).subscribers ≡ [])
    × ((on_exit (λ _. none) 1 (pos 1) (acquire (λ _. true) (runs 2) 11 viewed).1).process ≡ some 2)
on_exit_stale_example =
    on_exit_stale (λ _. true) (λ _. none) 1 2 11 (pos 1) viewed open_viewed process_viewed refl
      (omega arith)
