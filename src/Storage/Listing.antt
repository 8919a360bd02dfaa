-- ===== src/Storage/Listing.antt =====
-- What an `EventRepository` promises, told by the list of its events.
use mind_trace.Base.{
  ℕ, ◌≡◌, List, [], ◌∷◌, map, Option, none, some, arith, if◌then◌else◌, ◌==◌, Bool, any, any-perm,
  Perm, refl, sym, ◌∙◌,
}
use mind_trace.Event.{ActivityEvent, SameEvent}

abbrev pub ids : List ActivityEvent → List ℕ
ids = map (λ e. e.id)

-- The first event with an id.
abbrev pub event_with_id : ℕ → List ActivityEvent → Option ActivityEvent
event_with_id j [] = none
event_with_id j (e ∷ es) = if e.id == j then some e else event_with_id j es

pub event_with_id-match :
    (es : List ActivityEvent) (j : ℕ) (e : ActivityEvent) → event_with_id j es ≡ some e → e.id ≡ j
event_with_id-match [] j e h = cc
event_with_id-match (x ∷ es) j e h = ground (arith, event_with_id-match es j e)

-- An event but for its metadata, at which neither the index nor a search looks.
abbrev pub bare : ActivityEvent → ActivityEvent
bare e = record e { metadata = [] }

-- An event but for its id and its metadata.
abbrev pub strip : ActivityEvent → ActivityEvent
strip e = record e { id = 0; metadata = [] }

pub strip-SameEvent :
    (c e : ActivityEvent) (i : ℕ) → SameEvent c (record e { id = i }) → strip c ≡ strip e
strip-SameEvent c e i (_, t, u, s, x, _) = cc

any-map {ℓ κ} :
    {A : Type ℓ} {B : Type κ} (f : A → B) (p : B → Bool) (q : A → Bool)
    → ((a : A) → p (f a) ≡ q a)
    → (xs : List A) → any p (map f xs) ≡ any q xs
any-map f p q h [] = refl
any-map f p q h (x ∷ xs) = ground (arith, h x, any-map f p q h xs)

-- A test that does not look at metadata sees neither them nor the order of events.
pub any-bare :
    (q : ActivityEvent → Bool)
    → ((e : ActivityEvent) → q (bare e) ≡ q e)
    → (es us : List ActivityEvent) → Perm (map bare es) (map bare us)
    → any q es ≡ any q us
any-bare q h es us same = sym (any-map bare q q h es) ∙ any-perm q same ∙ any-map bare q q h us
