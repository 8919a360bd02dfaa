-- ===== src/Event/Keywords.antt =====
-- `extract_keywords` of src/core/event/activity_event.cpp: what the keywords of an event are.
use mathlib.Core.List.{List, [], ◌∷◌, ◌++◌}
use mind_trace.Base.{
  ◌≤◌, Bool, true, false, ◌≡◌, refl, ◌∙◌, ◌||◌, length, any, All, any-append, any-perm, All-mono,
  arith, inl, inr, Bool-cases,
}
use mind_trace.Base.Text.{Text, to_lower, is_alnum, lower, words, to_lower_idem, is_alnum-to_lower}
use mind_trace.Base.Eq.{text_eq, text_eq→eq}
use mind_trace.Base.Sort.{
  insertion_sort, insertion_sort-perm, insertion_sort-Sorted, Sorted, IsStrictWeak,
}
use mind_trace.Event.{
  ActivityEvent, event_type_to_string, clean_word, clean_words, is_long_enough, tokenize, text_ltb,
  unique, extract_keywords,
}

any-unique : (p : Text → Bool) (xs : List Text) → any p (unique xs) ≡ any p xs
unfolding unique
any-unique p [] = refl
any-unique p (x ∷ []) = refl
any-unique p (x ∷ y ∷ r) = ground (arith, text_eq→eq x y, any-unique p (y ∷ r))

-- A test holds of some keyword of an event exactly when it holds of a token of the content, of a
-- token of the source, or of the type's name in lower case: sorting and removing duplicates loses
-- nothing and adds nothing.
pub any-extract_keywords :
    (p : Text → Bool) (event : ActivityEvent)
    → any p (extract_keywords event) ≡ (
        any p (tokenize event.content)
        || any p (tokenize event.source)
        || p (lower (event_type_to_string event.type)))
unfolding extract_keywords
any-extract_keywords p event = ground (
  arith,
  any-unique p (
      insertion_sort text_ltb (
        tokenize event.content
        ++ (tokenize event.source ++ lower (event_type_to_string event.type) ∷ []))),
  any-perm p (
      insertion_sort-perm text_ltb (
        tokenize event.content
        ++ (tokenize event.source ++ lower (event_type_to_string event.type) ∷ []))),
  any-append p (tokenize event.content)
      (tokenize event.source ++ lower (event_type_to_string event.type) ∷ []),
  any-append p (tokenize event.source) (lower (event_type_to_string event.type) ∷ []),
)

-- Two or more letters and digits, none of them a capital.
pub record IsToken (k : Text) : Type 0 where
  pub bytes : All (λ c. (is_alnum c ≡ true) × (to_lower c ≡ c)) k
  pub long : 2 ≤ length k

clean_word-bytes : (w : Text) → All (λ c. (is_alnum c ≡ true) × (to_lower c ≡ c)) (clean_word w)
unfolding clean_word
clean_word-bytes [] = tt
clean_word-bytes (c ∷ w) = elim (Bool-cases (is_alnum c)) [
  | inl e ↦ rw e ((is_alnum-to_lower c ∙ e, to_lower_idem c), clean_word-bytes w)
  | inr e ↦ rw e (clean_word-bytes w)
]

clean_words-IsToken : (ws : List Text) → All IsToken (clean_words ws)
unfolding clean_words is_long_enough
clean_words-IsToken [] = tt
clean_words-IsToken (w ∷ ws) = elim (Bool-cases (is_long_enough (clean_word w))) [
  | inl e ↦
      rw (e, is_long_enough)
        (record { bytes = clean_word-bytes w; long = ground arith }, clean_words-IsToken ws)
  | inr e ↦ rw (e, is_long_enough) (clean_words-IsToken ws)
]

pub tokenize-IsToken : (text : Text) → All IsToken (tokenize text)
unfolding tokenize
tokenize-IsToken text = clean_words-IsToken (words text)

text_ltb_asym : (s t : Text) → text_ltb s t ≡ true → text_ltb t s ≡ false
text_ltb_asym [] [] h = refl
text_ltb_asym [] (d ∷ t) h = refl
text_ltb_asym (c ∷ s) [] h = cc
text_ltb_asym (c ∷ s) (d ∷ t) h = ground (arith, text_ltb_asym s t)

text_ltb_negative_trans :
    (s t u : Text) → text_ltb s t ≡ false → text_ltb t u ≡ false → text_ltb s u ≡ false
text_ltb_negative_trans [] t [] h k = refl
text_ltb_negative_trans (c ∷ s) t [] h k = refl
text_ltb_negative_trans [] [] (e ∷ u) h k = cc
text_ltb_negative_trans [] (d ∷ t) (e ∷ u) h k = cc
text_ltb_negative_trans (c ∷ s) [] (e ∷ u) h k = cc
text_ltb_negative_trans (c ∷ s) (d ∷ t) (e ∷ u) h k = ground (arith, text_ltb_negative_trans s t u)

text_ltb_total : (s t : Text) → text_eq s t ≡ false → text_ltb t s ≡ false → text_ltb s t ≡ true
text_ltb_total [] [] h k = cc
text_ltb_total [] (d ∷ t) h k = refl
text_ltb_total (c ∷ s) [] h k = cc
text_ltb_total (c ∷ s) (d ∷ t) h k = ground (arith, text_ltb_total s t)

pub text_ltb-IsStrictWeak : IsStrictWeak text_ltb
text_ltb-IsStrictWeak = record { asym = text_ltb_asym; negative_trans = text_ltb_negative_trans }

-- Each element comes before all later ones.
abbrev pub Ascending : List Text → Type 0
Ascending [] = Unit
Ascending (x ∷ xs) = All (λ y. text_ltb x y ≡ true) xs × Ascending xs

unique-All : (P : Text → Type 0) (xs : List Text) → All P xs → All P (unique xs)
unfolding unique
unique-All P [] h = tt
unique-All P (x ∷ []) h = h
unique-All P (x ∷ y ∷ r) (hx, hs) = elim (Bool-cases (text_eq x y)) [
  | inl e ↦ rw e (unique-All P (y ∷ r) hs)
  | inr e ↦ rw e (hx, unique-All P (y ∷ r) hs)
]

ltb_of_between : (x y z : Text) → text_ltb x y ≡ true → text_ltb z y ≡ false → text_ltb x z ≡ true
ltb_of_between x y z h k = ground (arith, text_ltb_negative_trans x z y)

unique-Ascending : (xs : List Text) → Sorted text_ltb xs → Ascending (unique xs)
unfolding unique
unique-Ascending [] s = tt
unique-Ascending (x ∷ []) s = (tt, tt)
unique-Ascending (x ∷ y ∷ r) ((hy, hr), (b, s)) = elim (Bool-cases (text_eq x y)) [
  | inl e ↦ rw e (unique-Ascending (y ∷ r) (b, s))
  | inr e ↦
      let x_lt_y : text_ltb x y ≡ true = text_ltb_total x y e hy in
      rw e (
        unique-All _ (y ∷ r) (x_lt_y, All-mono _ _ (λ z h. ltb_of_between x y z x_lt_y h) r b),
        unique-Ascending (y ∷ r) (b, s),
      )
]

-- The keywords of an event come in strictly ascending order: none is repeated.
pub extract_keywords-Ascending : (event : ActivityEvent) → Ascending (extract_keywords event)
unfolding extract_keywords
extract_keywords-Ascending event =
    unique-Ascending _ (insertion_sort-Sorted text_ltb text_ltb-IsStrictWeak _)

All-any :
    (P : Text → Type 0) (p : Text → Bool)
    → ((k : Text) → P k → p k ≡ false)
    → (ks : List Text) → All P ks
    → any p ks ≡ false
All-any P p f [] h = refl
All-any P p f (k ∷ ks) (h, hs) = ground (arith, f k h, All-any P p f ks hs)
