-- ===== src/Collectors/FileSystem/Rounds.antt =====
-- `scan_loop` of src/collectors/filesystem_collector.cpp over a directory that does not change.
use mind_trace.Base.{◌≡◌, refl, ap, ◌∙◌, List, [], ◌∷◌, Option, none, some, All}
use mind_trace.Base.Eq.{string_eq}
use mind_trace.Base.Dictionary.{Distinct}
use mind_trace.Collectors.FileSystem.{
  Forest, FileSystemCollector, scan, scan_directory, rescan, scan_loop,
}
use mind_trace.Collectors.FileSystem.Changes.{visible, paths}
use mind_trace.Collectors.FileSystem.Settled.{stamps, scan_again}

-- What a round of the loop finds has the paths and times of writing of a first scan, or nothing is
-- found.
abbrev pub IsUnchanged : Forest → Option Forest → Type 0
IsUnchanged t none = Unit
IsUnchanged t (some again) = stamps (visible again) ≡ stamps (visible t)

rescan_again :
    (t : Forest) (rounds : List (Option Forest)) (c : FileSystemCollector)
    → Distinct (paths (visible t))
    → All (IsUnchanged t) rounds
    → rescan rounds (scan t c) ≡ scan t c
unfolding rescan scan_directory
rescan_again t [] c d same = refl
rescan_again t (none ∷ rounds) c d (h, same) = rescan_again t rounds c d same
rescan_again t (some again ∷ rounds) c d (h, same) =
    ap (rescan rounds) (scan_again t again c d h) ∙ rescan_again t rounds c d same

-- While the files in sight keep their paths and times of writing, the loop does no more than its
-- first scan: each file is reported at most once, however many rounds there are. Condition: no two
-- files in sight have the same path.
pub scan_loop_settled :
    (t : Forest) (rounds : List (Option Forest)) (c : FileSystemCollector)
    → Distinct (paths (visible t))
    → All (IsUnchanged t) rounds
    → scan_loop (some t) rounds c ≡ scan t c
unfolding scan_loop scan_directory
scan_loop_settled t rounds c d same = rescan_again t rounds c d same
