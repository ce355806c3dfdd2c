-- ===== src/Harness/Model/Stream.antt =====
-- What a model result holds of the stream it was read from.
use jadeenvoy.Harness.Model.{ModelResult, PendingToolUse}
use jadeenvoy.Prelude.{List, String, [], map, ◌++◌, ◌<>◌, ◌∷◌, ◌≡◌}
use jadeenvoy.Provider.{
  ChatEvent, error_event, stop_reason, text_delta, tool_use_delta, tool_use_start,
}
use mathlib.Core.List.{append_assoc, append-nil}
use text.Mathlib.TextLemmas.{append_assoc as text_assoc, append-nil as text_nil}

-- The text and the tool uses of a stream, up to the event that ends it.
pub text_said : List ChatEvent → String
text_said [] = ""
text_said (text_delta t ∷ es) = t <> text_said es
text_said (tool_use_start id name ∷ es) = text_said es
text_said (tool_use_delta id s ∷ es) = text_said es
text_said (stop_reason r u ∷ es) = ""
text_said (error_event e ∷ es) = ""

pub tools_started : List ChatEvent → List (String × String)
tools_started [] = []
tools_started (text_delta t ∷ es) = tools_started es
tools_started (tool_use_start id name ∷ es) = (id, name) ∷ tools_started es
tools_started (tool_use_delta id s ∷ es) = tools_started es
tools_started (stop_reason r u ∷ es) = []
tools_started (error_event e ∷ es) = []

abbrev pub names_of : List PendingToolUse → List (String × String)
names_of = map (λ t. (t.id, t.name))

record Reads (es : List ChatEvent) (text : String) (tools : List PendingToolUse) (r : ModelResult)
    : Type 0 where
  text_is : r.text ≡ text <> text_said es
  tools_are : names_of r.tools ≡ names_of tools ++ tools_started es
