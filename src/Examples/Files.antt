-- ===== src/Examples/Files.antt =====
-- Two writers of one file: the second flushes between two flushes of the first, which misses the lock once.
use trace.Output.{SharedFile, no_lock, whole}
use trace.Output.Shared.{Step, puts, flushes, run, pieces, flushers, joined, blocks_of, run-joined}
use trace.Prelude.{List, [], true, ℕ, ◌∷◌, ◌≡◌}
use trace.Prelude.{map}

abbrev two_writers : List Step
two_writers =
    puts 0 (112 ∷ 97 ∷ [])
    ∷ flushes 0 whole true
    ∷ puts 1 (99 ∷ [])
    ∷ puts 0 (109 ∷ [])
    ∷ flushes 0 no_lock true
    ∷ flushes 1 whole true
    ∷ flushes 0 whole true
    ∷ []

abbrev fresh : ℕ → SharedFile
fresh i = record { buf = [] }

run-joined_example :
    let (file', files') = run two_writers ([], fresh) in
    (blocks : List (ℕ × List ℕ)) × (file' ≡ joined blocks)
    × (map (λ b. b.0) blocks ≡ 0 ∷ 1 ∷ 0 ∷ [])
    × ((j : ℕ) → pieces j [] two_writers ≡ (blocks_of j blocks, (files' j).buf))
unfolding flushers
run-joined_example = run-joined two_writers [] fresh (tt, (tt, (tt, (tt, (tt, (tt, (tt, tt)))))))
