-- ===== src/Examples/Python.antt =====
-- A block that is entered twice and left twice, a directory with one dump in it, and two signals.
use trace.Recording
use trace.Recording.{World, SnapshotBlock, records}
use trace.Recording.Block.{Call, entering, exiting, calls, Sent, new-Sent}
use trace.Recording.Names.{
  digits, Files, IsFirst, IsPlain, file_name, open_dump, opened_at, path_of, open_dump-IsFirst,
}
use trace.Format.{json}
use trace.Tracer.{Rules, take_over_deadly_signals, hand_back_deadly_signals}
use trace.Tracer.Handlers.{hand_back-take_over}
use trace.Prelude.{List, [], arith, false, length, none, refl, some, true, ℕ, ◌==◌, ◌∷◌, ◌≡◌, ◌≤◌}

abbrev world : World
world = record { next_window = 5; sent = []; written = [] }

abbrev four_calls : List Call
four_calls =
    entering (records false) 100
    ∷ entering (records false) 110
    ∷ exiting (records false) 200 none (some "out/1.pb")
    ∷ exiting (records false) 210 none none
    ∷ []

new-Sent_example :
    let (v, b) = calls (λ reason name. reason) four_calls (world, Recording.new "slow") in
    Sent (λ reason name. reason) [] b.stage v.sent
new-Sent_example = new-Sent (λ reason name. reason) four_calls world "slow"

abbrev two_files : Files ℕ ℕ
two_files = record {
  join = λ name. length name;
  exists = λ path. path == 9;
  to_str = λ path. some (path ∷ []);
  opens = λ path pid. some 1;
}

open_dump-IsFirst_example :
    (found : ℕ) × IsFirst two_files 7 (97 ∷ 47 ∷ []) json 0 1 found
    × (found ≤ 2)
    × IsPlain (file_name 7 (97 ∷ 47 ∷ []) json 0 found)
    × (open_dump two_files (some 7) (97 ∷ 47 ∷ []) json 0
        ≡ opened_at two_files 0 (some (path_of two_files 7 (97 ∷ 47 ∷ []) json 0 found ∷ [])))
unfolding file_name digits
open_dump-IsFirst_example =
    open_dump-IsFirst two_files 7 (97 ∷ 47 ∷ []) json 0 2 (omega arith) (omega arith) refl

abbrev rules : Rules
rules = record { reads = λ n. true; installs = λ n handler. true }

hand_back-take_over_example :
    let s =
      take_over_deadly_signals rules 1
        (some 15 ∷ none ∷ some 15 ∷ [])
        (record { handler = λ n. 0; replaced = [] }) in
    let end = hand_back_deadly_signals rules 1 s in
    ((n : ℕ) → end.handler n ≡ 0) × (end.replaced ≡ [])
hand_back-take_over_example =
    hand_back-take_over rules 1 (some 15 ∷ none ∷ some 15 ∷ []) (λ n. 0) (λ n e. omega arith)
      (λ n. refl) (λ n. refl)
