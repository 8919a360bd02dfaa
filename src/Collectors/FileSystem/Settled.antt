-- ===== src/Collectors/FileSystem/Settled.antt =====
-- A second scan of src/collectors/filesystem_collector.cpp over files that have not changed.
use mind_trace.Base.{
  ℕ, Bool, true, false, ◌≡◌, refl, ap, ◌∙◌, List, [], ◌∷◌, map, Option, none, some, ◌==◌, ==_iff,
  all, and_split, and_join,
}
use mind_trace.Base.Eq.{text_eq_refl, string_eq, nat_eq}
use mind_trace.Base.Text.{Text}
use mind_trace.Base.Dictionary.{Distinct}
use mind_trace.Collectors.FileSystem.{
  File, Forest, FileSystemCollector, state_of, compare_state, scan,
}
use mind_trace.Collectors.FileSystem.Changes.{
  visible, paths, visit, visit_all, scan_lem, state_of-compare_state, state_of-visit_all,
  known_after_absent,
}

-- The paths of files, with their times of writing.
abbrev pub stamps : List (File × ℕ) → List (Text × ℕ)
stamps = map (λ (v : File × ℕ). (v.0.path, v.1))

is_known : Option ℕ → ℕ → Bool
is_known none w = false
is_known (some k) w = k == w

is_settled : List (Text × ℕ) → Text × ℕ → Bool
is_settled m (p, w) = is_known (state_of p m) w

known-compare_state :
    (c : FileSystemCollector) (f : File) (w : ℕ) (o : Option ℕ)
    → is_known o w ≡ true
    → compare_state c f w o ≡ c
unfolding compare_state is_known
known-compare_state c f w none h = cc
known-compare_state c f w (some k) h = rw h refl

-- Files whose times are known change nothing.
visit_all_settled :
    (vs : List (File × ℕ)) (c : FileSystemCollector)
    → all (is_settled c.file_states) (stamps vs) ≡ true
    → visit_all vs c ≡ c
unfolding visit_all visit is_settled
visit_all_settled [] c h = refl
visit_all_settled ((f, w) ∷ vs) c h =
    let known = and_split _ _ h in
    ap (visit_all vs) (known-compare_state c f w (state_of f.path c.file_states) known.0)
    ∙ visit_all_settled vs c known.1

state_of-visit_self :
    (f : File) (w : ℕ) (vs : List (File × ℕ)) (c : FileSystemCollector)
    → Distinct (paths ((f, w) ∷ vs))
    → state_of f.path (visit_all vs (visit (f, w) c)).file_states ≡ some w
unfolding visit
state_of-visit_self f w vs c (h, d) =
    state_of-visit_all vs (visit (f, w) c) f.path d
    ∙ known_after_absent vs f.path _ h
    ∙ state_of-compare_state c f w (state_of f.path c.file_states) f.path refl
    ∙ rw (text_eq_refl f.path) refl

is_known_self : (o : Option ℕ) (w : ℕ) → o ≡ some w → is_known o w ≡ true
unfolding is_known
is_known_self o w h = rw h ((==_iff w w).1 refl)

settled-visit_all :
    (vs : List (File × ℕ)) (c : FileSystemCollector)
    → Distinct (paths vs)
    → all (is_settled (visit_all vs c).file_states) (stamps vs) ≡ true
unfolding visit_all is_settled
settled-visit_all [] c d = refl
settled-visit_all ((f, w) ∷ vs) c d =
    and_join _ _ (is_known_self _ w (state_of-visit_self f w vs c d))
      (settled-visit_all vs (visit (f, w) c) d.1)

-- A second scan, in which the files in sight have the paths and times of writing of the first one,
-- sends nothing and changes nothing, whatever the clock and the sizes are by then. Condition: no two
-- files in sight have the same path.
pub scan_again :
    (t again : Forest) (c : FileSystemCollector)
    → Distinct (paths (visible t))
    → stamps (visible again) ≡ stamps (visible t)
    → scan again (scan t c) ≡ scan t c
scan_again t again c d same =
    scan_lem again (scan t c)
    ∙ visit_all_settled (visible again) (scan t c) (
        ap (all (is_settled (scan t c).file_states)) same
        ∙ ap (λ (r : FileSystemCollector). all (is_settled r.file_states) (stamps (visible t)))
            (scan_lem t c)
        ∙ settled-visit_all (visible t) c d)
