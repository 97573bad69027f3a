-- ===== src/Ap64/Watch/Examples.antt =====
-- A history at which the theorem on the watch is applied.
use multi.Common.{List, [], ◌∷◌, none}
use multi.Ap64.Watch.{new}
use multi.Ap64.Watch.History.{Op, observes, takes, run, changes, Accounted, run-new-Accounted}

abbrev three_samples : List Op
three_samples = observes (0 ∷ 0 ∷ 0 ∷ 0 ∷ []) ∷ observes (0x60 ∷ 1 ∷ 0 ∷ 1 ∷ []) ∷ takes ∷ []

run-new-Accounted_example :
    let (taken, end) = run (new 0x40_002C 4 none) three_samples in
    Accounted (changes 4 none none three_samples) taken end
run-new-Accounted_example = run-new-Accounted 0x40_002C 4 none three_samples
