-- ===== src/Cli/Queries.antt =====
-- The arguments of the command line, apps/cli/main.cpp.
use mathlib.Core.List.{append_assoc, append-nil}
use mind_trace.Base.{
  ◌≡◌, refl, sym, ap, ◌∙◌, Bool, true, false, not, ◌&&◌, ◌||◌, List, [], ◌∷◌, ◌++◌, map, is_empty,
  arith, if◌then◌else◌,
}
use mind_trace.Base.Eq.{text_eq, text_eq_sym, text_eq→eq, string_eq}
use mind_trace.Base.Dictionary.{count}
use mind_trace.Base.Text.{Text, codes, words, words-space}
use mind_trace.Cli.{
  join_rest, join_query, day_of, stats, daemon, demo, help, search_for, timeline_of,
  unknown_command, Command, command_of,
}

-- The words of each text, one after the other.
abbrev pub all_words : List Text → List Text
all_words [] = []
all_words (s ∷ ss) = words s ++ all_words ss

words-join_rest :
    (query : Text) (args : List Text) → words (join_rest query args) ≡ words query ++ all_words args
unfolding join_rest
words-join_rest query [] = sym (append-nil (words query))
words-join_rest query (arg ∷ args) =
    words-join_rest (query ++ codes " " ++ arg) args
    ∙ ap (λ ws. ws ++ all_words args) (words_with query arg)
    ∙ append_assoc (words query) (words arg) (all_words args)
  where
    words_with : (s t : Text) → words (s ++ codes " " ++ t) ≡ words s ++ words t
    words_with s t = ap words (append_assoc s (codes " ") t) ∙ words-space s t

words_nil : words [] ≡ []
unfolding words
words_nil = refl

-- The words of a query are the words of the arguments, one after the other, however the arguments are
-- quoted.
pub words-join_query : (args : List Text) → words (join_query args) ≡ all_words args
unfolding join_query
words-join_query [] = words_nil
words-join_query (arg ∷ args) = words-join_rest arg args

abbrev is_unknown : Command → Bool
is_unknown (unknown_command command) = true
is_unknown _ = false

unknown_ladder :
    (is_search is_timeline is_stats is_daemon is_demo is_help bare : Bool)
    (query day command : Text)
    → (is_search ≡ true
        → (is_timeline || (is_stats || (is_daemon || (is_demo || (is_help || false))))) ≡ false)
    → is_unknown (
        if is_search && not bare
        then search_for query
        else if is_timeline
        then timeline_of day
        else if is_stats
        then stats
        else if is_daemon
        then daemon
        else if is_demo
        then demo
        else if is_help
        then help
        else unknown_command command)
      ≡ (not (
            is_search
            || (is_timeline || (is_stats || (is_daemon || (is_demo || (is_help || false))))))
          || (is_search && bare))
unknown_ladder false a b c d e bare q y x h = ground arith
unknown_ladder true a b c d e bare q y x h = ground arith

abbrev pub commands : List Text
commands = map codes ("search" ∷ "timeline" ∷ "stats" ∷ "daemon" ∷ "demo" ∷ "help" ∷ [])

-- A word that is none of the commands, or "search" with nothing after it.
abbrev pub is_refused : Text → List Text → Bool
is_refused command rest =
    not (count command commands) || (text_eq command (codes "search") && is_empty rest)

is_unknown-command_of :
    (command : Text) (rest : List Text)
    → is_unknown (command_of (command ∷ rest)) ≡ is_refused command rest
unfolding command_of
is_unknown-command_of command rest =
    rw
      (
        text_eq_sym (codes "search") command,
        text_eq_sym (codes "timeline") command,
        text_eq_sym (codes "stats") command,
        text_eq_sym (codes "daemon") command,
        text_eq_sym (codes "demo") command,
        text_eq_sym (codes "help") command,
      )
      (unknown_ladder (text_eq command (codes "search")) (text_eq command (codes "timeline"))
        (text_eq command (codes "stats")) (text_eq command (codes "daemon"))
        (text_eq command (codes "demo")) (text_eq command (codes "help")) (is_empty rest)
        (join_query rest) (day_of rest) command other_words)
  where
    other_words :
        text_eq command (codes "search") ≡ true
        → (text_eq command (codes "timeline")
            || (text_eq command (codes "stats")
                || (text_eq command (codes "daemon")
                    || (text_eq command (codes "demo")
                        || (text_eq command (codes "help") || false)))))
          ≡ false
    other_words h = rw (text_eq→eq command (codes "search") h) refl

if-elim {ℓ κ} :
    {A : Type ℓ} (P : A → Type κ) (b : Bool) (x y : A)
    → P x
    → (b ≡ false → P y)
    → P (if b then x else y)
if-elim P true x y h k = h
if-elim P false x y h k = k refl

-- A command that only reads, and if it is unknown, has the given word and is refused.
abbrev pub IsReading : Text → Bool → Command → Type 0
IsReading word refused (unknown_command command) = (command ≡ word) × (refused ≡ true)
IsReading word refused daemon = ⊥
IsReading word refused demo = ⊥
IsReading word refused _ = refused ≡ false

module _ (command : Text) (rest : List Text) (not_demo : text_eq command (codes "demo") ≡ false)
    (not_daemon : text_eq command (codes "daemon") ≡ false) where
  -- What is read off a command once it is known whether it is refused.
  abbrev Reads : Command → Type 0
  Reads c = (refused : Bool) → is_unknown c ≡ refused → IsReading command refused c

  command_of-Reads : Reads (command_of (command ∷ rest))
  unfolding command_of
  command_of-Reads =
      if-elim Reads (text_eq command (codes "search") && not (is_empty rest)) _ _ (λ r h. sym h)
        (λ _.
          if-elim Reads (text_eq command (codes "timeline")) _ _ (λ r h. sym h)
            (λ _.
              if-elim Reads (text_eq command (codes "stats")) _ _ (λ r h. sym h)
                (λ _.
                  rw (not_daemon, not_demo)
                    (if-elim Reads (text_eq command (codes "help")) _ _ (λ r h. sym h)
                      (λ _ r h. (refl, sym h))))))

  -- The command of some arguments, but for those of a demo and of the daemon.
  pub command_of-IsReading :
      IsReading command (is_refused command rest) (command_of (command ∷ rest))
  command_of-IsReading =
      command_of-Reads (is_refused command rest) (is_unknown-command_of command rest)
