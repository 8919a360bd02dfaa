-- ===== src/Index/Contents.antt =====
-- What `add` of src/core/indexing/inverted_index.cpp puts into each of the four containers.
use mind_trace.Base.{ℕ, ◌≡◌, Bool, ◌||◌, ◌&&◌, List, [], ◌∷◌, is_empty, any, not, arith, ◌==◌}
use mind_trace.Base.Eq.{nat_eq, string_eq}
use mind_trace.Base.Text.{Text}
use mind_trace.Base.Dictionary.{hits, hits-add_at}
use mind_trace.Event.{ActivityEvent}
use mind_trace.Index.{add_keywords, add_app, app_key}

pub hits-add_keywords :
    (p : Text → Bool) (id j : ℕ) (kws : List Text) (m : List (Text × List ℕ))
    → hits p (add_keywords id kws m) j ≡ (hits p m j || (any p kws && id == j))
unfolding add_keywords
hits-add_keywords p id j [] m = ground arith
hits-add_keywords p id j (kw ∷ kws) m =
    rw (hits-add_keywords p id j kws _, hits-add_at p kw id j m) (ground arith)

pub hits-add_app :
    (p : Text → Bool) (event : ActivityEvent) (j : ℕ) (m : List (Text × List ℕ))
    → hits p (add_app event m) j
      ≡ (hits p m j || (not (is_empty event.source) && p (app_key event.source) && event.id == j))
unfolding add_app
hits-add_app p event j m = ground (arith, hits-add_at p (app_key event.source) event.id j m)
