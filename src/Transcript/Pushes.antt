-- ===== src/Transcript/Pushes.antt =====
-- What `TranscriptBuffer` of crates/misy-core/src/core/agents/transcript.rs is given.
use misy.Common.{ℕ, Bool, false, none, some, List, [], length}
use misy.Common.Texts.{Text}
use misy.Transcript.{
  ToolCall, ToolResult, assignment, user_message, assistant, tool_call, tool_result, terminal,
  Entry, TranscriptBuffer, Encoding, entry, push,
}

-- `AgentTranscript`; the summary of the agent has a type of its own.
pub record AgentTranscript (Json Image Source Agent : Type 0) : Type 0 where
  pub agent : Agent
  pub entries : List (Entry Json Image)
  pub truncated : Bool
  pub instruction_sources : List Source

module _ {Json Image Source : Type 0} where
  abbrev pub empty_transcript : TranscriptBuffer Json Image Source
  empty_transcript = record {
    entries = [];
    retained_bytes = 0;
    truncated = false;
    instruction_sources = [];
  }

  unfoldable pub snapshot_transcript :
      {Agent : Type 0}
      → TranscriptBuffer Json Image Source
      → Agent
      → AgentTranscript Json Image Source Agent
  snapshot_transcript t agent = record {
    agent = agent;
    entries = t.entries;
    truncated = t.truncated;
    instruction_sources = t.instruction_sources;
  }

  unfoldable pub set_instruction_sources :
      TranscriptBuffer Json Image Source → List Source → TranscriptBuffer Json Image Source
  set_instruction_sources t sources = record t { instruction_sources = sources }

module _ {Json Image Source : Type 0} (s : Encoding Json Image) where
  unfoldable pub new_transcript : Text → ℕ → TranscriptBuffer Json Image Source
  new_transcript task attachments =
      push s empty_transcript (entry assignment task none none attachments)

  unfoldable pub push_user_message :
      TranscriptBuffer Json Image Source → Text → TranscriptBuffer Json Image Source
  push_user_message t message = push s t (entry user_message message none none 0)

  unfoldable pub push_assistant :
      TranscriptBuffer Json Image Source → Text → TranscriptBuffer Json Image Source
  push_assistant t text = push s t (entry assistant text none none 0)

  unfoldable pub push_tool_call :
      TranscriptBuffer Json Image Source → ToolCall Json → TranscriptBuffer Json Image Source
  push_tool_call t call = push s t (entry tool_call call.name (some call) none 0)

  -- The images are counted and left out.
  unfoldable pub push_tool_result :
      TranscriptBuffer Json Image Source → ToolResult Image → TranscriptBuffer Json Image Source
  push_tool_result t result = push s t (
      entry tool_result result.content none (some (record result { attachments = [] }))
        (length result.attachments))

  unfoldable pub push_terminal :
      TranscriptBuffer Json Image Source → Text → TranscriptBuffer Json Image Source
  push_terminal t message = push s t (entry terminal message none none 0)
