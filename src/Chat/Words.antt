-- ===== src/Chat/Words.antt =====
-- A command's text and its words (strings.Fields and strings.Join in pkg/mattermost/commands.go and
-- pkg/slack/handler.go).
use Prim.Native.Char.{Char, char}
use Prim.Native.String.append
use nightowl.Base.{String, false, List, [], ◌∷◌, ◌≡◌, refl, sym, ap, ◌∙◌, All}
use nightowl.Base.Texts.{is_space, starts_word, fields, join, ◌<>◌}
use nightowl.Chat.Queries.{Externals}
use nightowl.Chat.Commands.{
  command_of, dispatch, run_command, handle_commands, handle_search_cmd, handle_on_call_cmd,
  handle_ack_cmd, handle_resolve_cmd, handle_roster_cmd,
}
use nightowl.Chat.Slack.{
  slack_dispatch, run_slack_command, handle_slack_commands, handle_search_command,
  handle_on_call_command, handle_ack_command, handle_resolve_command, handle_roster_command,
}

-- No character of the text is a space.
abbrev pub HasNoSpace : String → Type 0
HasNoSpace String.[] = Unit
HasNoSpace (String.◌∷◌ c s) = (is_space c ≡ false) × HasNoSpace s

abbrev pub IsWord : String → Type 0
IsWord String.[] = ⊥
IsWord (String.◌∷◌ c s) = (is_space c ≡ false) × HasNoSpace s

fields_empty : fields "" ≡ []
unfolding fields
fields_empty = refl

starts_nothing : starts_word "" ≡ false
unfolding starts_word
starts_nothing = refl

starts_word-blank : (t : String) → starts_word (" " <> t) ≡ false
unfolding starts_word is_space
starts_word-blank t = rw (append.cons (char 32 tt) "" t) refl

fields-blank : (t : String) → fields (" " <> t) ≡ fields t
unfolding fields is_space
fields-blank t = rw (append.cons (char 32 tt) "" t, append.nil t) refl

append-empty : (s : String) → s <> "" ≡ s
append-empty String.[] = append.nil ""
append-empty (String.◌∷◌ c s) = append.cons c s "" ∙ ap (String.◌∷◌ c) (append-empty s)

-- What follows a word: nothing, or a text that begins with a blank.
fields-word :
    (c : Char) (s rest : String)
    → is_space c ≡ false
    → HasNoSpace s
    → starts_word rest ≡ false
    → fields (String.◌∷◌ c (s <> rest)) ≡ String.◌∷◌ c s ∷ fields rest
unfolding fields starts_word
fields-word c String.[] rest hc hs hr = rw (append.nil rest, hc, hr) refl
fields-word c (String.◌∷◌ d s) rest hc (hd, hs) hr =
    rw (append.cons d s rest, fields-word d s rest hd hs hr, hc, hd) refl

-- Words with a blank between each two of them are taken apart again.
fields-join : (ws : List String) → All IsWord ws → fields (join ws) ≡ ws
unfolding join
fields-join [] h = fields_empty
fields-join (String.[] ∷ ws) (hw, h) = absurd hw
fields-join (String.◌∷◌ c s ∷ []) ((hc, hs), h) =
    ap (λ t. fields (String.◌∷◌ c t)) (sym (append-empty s))
    ∙ fields-word c s "" hc hs starts_nothing
    ∙ ap (λ ws. String.◌∷◌ c s ∷ ws) fields_empty
fields-join (String.◌∷◌ c s ∷ v ∷ ws) ((hc, hs), h) =
    ap fields (append.cons c s (" " <> join (v ∷ ws)))
    ∙ fields-word c s (" " <> join (v ∷ ws)) hc hs (starts_word-blank (join (v ∷ ws)))
    ∙ ap (λ vs. String.◌∷◌ c s ∷ vs) (fields-blank (join (v ∷ ws)) ∙ fields-join (v ∷ ws) h)

-- Both command handlers read a text of words with a blank between each two of them as exactly
-- those words.
handle_commands-join :
    (ext : Externals) (user : String) (ws : List String)
    → All IsWord ws
    → (handle_commands ext user (join ws) ≡ dispatch ext user ws)
      × (handle_slack_commands ext user (join ws) ≡ slack_dispatch ext user ws)
unfolding handle_commands handle_slack_commands
handle_commands-join ext user ws h = (
  ap (λ vs. dispatch ext user vs) (fields-join ws h),
  ap (λ vs. slack_dispatch ext user vs) (fields-join ws h),
)

abbrev pub names : List String
names = "search" ∷ "oncall" ∷ "ack" ∷ "resolve" ∷ "roster" ∷ []

names-IsWord : All IsWord names
unfolding is_space
names-IsWord = (
  (refl, (refl, (refl, (refl, (refl, (refl, tt)))))),
  (
    (refl, (refl, (refl, (refl, (refl, (refl, tt)))))),
    (
      (refl, (refl, (refl, tt))),
      (
        (refl, (refl, (refl, (refl, (refl, (refl, (refl, tt))))))),
        ((refl, (refl, (refl, (refl, (refl, (refl, tt)))))), tt),
      ),
    ),
  ),
)

module _ (ext : Externals) (user : String) (args : List String) (words : All IsWord args) where
  -- A command whose name is written in small letters.
  named :
      (name : String)
      → IsWord name
      → ext.to_lower name ≡ name
      → (handle_commands ext user (join (name ∷ args))
          ≡ run_command ext user name (command_of name) args)
        × (handle_slack_commands ext user (join (name ∷ args))
            ≡ run_slack_command ext user name (command_of name) args)
  unfolding dispatch slack_dispatch
  named name word small =
      let (mattermost, slack) = handle_commands-join ext user (name ∷ args) (word, words) in
      (
        mattermost ∙ ap (λ s. run_command ext user s (command_of s) args) small,
        slack ∙ ap (λ s. run_slack_command ext user s (command_of s) args) small,
      )

  -- The text of a command whose first word is one of the five names, with any words behind it and a
  -- blank between each two, runs the handler of that name on exactly the words behind it, in
  -- Mattermost and in Slack. The names are their own lower case.
  pub commands_run_by_name :
      All (λ name. ext.to_lower name ≡ name) names
      → (handle_commands ext user (join ("search" ∷ args)) ≡ handle_search_cmd ext args)
        × (handle_commands ext user (join ("oncall" ∷ args)) ≡ handle_on_call_cmd ext args)
        × (handle_commands ext user (join ("ack" ∷ args)) ≡ handle_ack_cmd ext user args)
        × (handle_commands ext user (join ("resolve" ∷ args)) ≡ handle_resolve_cmd ext user args)
        × (handle_commands ext user (join ("roster" ∷ args)) ≡ handle_roster_cmd ext args)
        × (handle_slack_commands ext user (join ("search" ∷ args)) ≡ handle_search_command ext args)
        × (handle_slack_commands ext user (join ("oncall" ∷ args))
            ≡ handle_on_call_command ext args)
        × (handle_slack_commands ext user (join ("ack" ∷ args)) ≡ handle_ack_command ext user args)
        × (handle_slack_commands ext user (join ("resolve" ∷ args))
            ≡ handle_resolve_command ext user args)
        × (handle_slack_commands ext user (join ("roster" ∷ args)) ≡ handle_roster_command ext args)
  unfolding run_command run_slack_command command_of
  commands_run_by_name (searching, (oncall, (ack, (resolve, (roster, _))))) =
      let (search', (oncall', (ack', (resolve', (roster', _))))) = names-IsWord in
      let by_search = named "search" search' searching in
      let by_oncall = named "oncall" oncall' oncall in
      let by_ack = named "ack" ack' ack in
      let by_resolve = named "resolve" resolve' resolve in
      let by_roster = named "roster" roster' roster in
      (
        by_search.0, by_oncall.0, by_ack.0, by_resolve.0, by_roster.0, by_search.1, by_oncall.1,
        by_ack.1, by_resolve.1, by_roster.1,
      )
