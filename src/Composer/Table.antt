-- ===== src/Composer/Table.antt =====
-- The table of the slash commands, crates/misy-tui/src/tui/composer.rs.
use misy.Common.{List, [], ◌∷◌}
use misy.Common.Texts.{Text}

pub record CommandDefinition : Type 0 where
  pub name : Text
  pub description : Text

-- /provider: Configure provider authentication.
abbrev command_provider : CommandDefinition
command_provider = record {
  name = (47 ∷ 112 ∷ 114 ∷ 111 ∷ 118 ∷ 105 ∷ 100 ∷ 101 ∷ 114 ∷ []);
  description =
      (67 ∷ 111 ∷ 110 ∷ 102 ∷ 105 ∷ 103 ∷ 117 ∷ 114 ∷ 101 ∷ 32 ∷ 112 ∷ 114 ∷ 111 ∷ 118 ∷ 105 ∷ 100
        ∷ 101 ∷ 114 ∷ 32 ∷ 97 ∷ 117 ∷ 116 ∷ 104 ∷ 101 ∷ 110 ∷ 116 ∷ 105 ∷ 99 ∷ 97 ∷ 116 ∷ 105 ∷ 111
        ∷ 110 ∷ []);
}

-- /model: Choose a model.
abbrev command_model : CommandDefinition
command_model = record {
  name = (47 ∷ 109 ∷ 111 ∷ 100 ∷ 101 ∷ 108 ∷ []);
  description =
      (67 ∷ 104 ∷ 111 ∷ 111 ∷ 115 ∷ 101 ∷ 32 ∷ 97 ∷ 32 ∷ 109 ∷ 111 ∷ 100 ∷ 101 ∷ 108 ∷ []);
}

-- /tasks: Show background tasks and agents.
abbrev command_tasks : CommandDefinition
command_tasks = record {
  name = (47 ∷ 116 ∷ 97 ∷ 115 ∷ 107 ∷ 115 ∷ []);
  description =
      (83 ∷ 104 ∷ 111 ∷ 119 ∷ 32 ∷ 98 ∷ 97 ∷ 99 ∷ 107 ∷ 103 ∷ 114 ∷ 111 ∷ 117 ∷ 110 ∷ 100 ∷ 32 ∷ 116
        ∷ 97 ∷ 115 ∷ 107 ∷ 115 ∷ 32 ∷ 97 ∷ 110 ∷ 100 ∷ 32 ∷ 97 ∷ 103 ∷ 101 ∷ 110 ∷ 116 ∷ 115 ∷ []);
}

-- /context: Show active context usage.
abbrev command_context : CommandDefinition
command_context = record {
  name = (47 ∷ 99 ∷ 111 ∷ 110 ∷ 116 ∷ 101 ∷ 120 ∷ 116 ∷ []);
  description =
      (83 ∷ 104 ∷ 111 ∷ 119 ∷ 32 ∷ 97 ∷ 99 ∷ 116 ∷ 105 ∷ 118 ∷ 101 ∷ 32 ∷ 99 ∷ 111 ∷ 110 ∷ 116 ∷ 101
        ∷ 120 ∷ 116 ∷ 32 ∷ 117 ∷ 115 ∷ 97 ∷ 103 ∷ 101 ∷ []);
}

-- /thinking: Choose reasoning level.
abbrev command_thinking : CommandDefinition
command_thinking = record {
  name = (47 ∷ 116 ∷ 104 ∷ 105 ∷ 110 ∷ 107 ∷ 105 ∷ 110 ∷ 103 ∷ []);
  description =
      (67 ∷ 104 ∷ 111 ∷ 111 ∷ 115 ∷ 101 ∷ 32 ∷ 114 ∷ 101 ∷ 97 ∷ 115 ∷ 111 ∷ 110 ∷ 105 ∷ 110 ∷ 103
        ∷ 32 ∷ 108 ∷ 101 ∷ 118 ∷ 101 ∷ 108 ∷ []);
}

-- /compact: Compact active context.
abbrev command_compact : CommandDefinition
command_compact = record {
  name = (47 ∷ 99 ∷ 111 ∷ 109 ∷ 112 ∷ 97 ∷ 99 ∷ 116 ∷ []);
  description =
      (67 ∷ 111 ∷ 109 ∷ 112 ∷ 97 ∷ 99 ∷ 116 ∷ 32 ∷ 97 ∷ 99 ∷ 116 ∷ 105 ∷ 118 ∷ 101 ∷ 32 ∷ 99 ∷ 111
        ∷ 110 ∷ 116 ∷ 101 ∷ 120 ∷ 116 ∷ []);
}

-- /new: Start a new conversation.
abbrev command_new : CommandDefinition
command_new = record {
  name = (47 ∷ 110 ∷ 101 ∷ 119 ∷ []);
  description =
      (83 ∷ 116 ∷ 97 ∷ 114 ∷ 116 ∷ 32 ∷ 97 ∷ 32 ∷ 110 ∷ 101 ∷ 119 ∷ 32 ∷ 99 ∷ 111 ∷ 110 ∷ 118 ∷ 101
        ∷ 114 ∷ 115 ∷ 97 ∷ 116 ∷ 105 ∷ 111 ∷ 110 ∷ []);
}

-- /clear: Start a new conversation.
abbrev command_clear : CommandDefinition
command_clear = record {
  name = (47 ∷ 99 ∷ 108 ∷ 101 ∷ 97 ∷ 114 ∷ []);
  description =
      (83 ∷ 116 ∷ 97 ∷ 114 ∷ 116 ∷ 32 ∷ 97 ∷ 32 ∷ 110 ∷ 101 ∷ 119 ∷ 32 ∷ 99 ∷ 111 ∷ 110 ∷ 118 ∷ 101
        ∷ 114 ∷ 115 ∷ 97 ∷ 116 ∷ 105 ∷ 111 ∷ 110 ∷ []);
}

-- /resume: Resume a saved conversation.
abbrev command_resume : CommandDefinition
command_resume = record {
  name = (47 ∷ 114 ∷ 101 ∷ 115 ∷ 117 ∷ 109 ∷ 101 ∷ []);
  description =
      (82 ∷ 101 ∷ 115 ∷ 117 ∷ 109 ∷ 101 ∷ 32 ∷ 97 ∷ 32 ∷ 115 ∷ 97 ∷ 118 ∷ 101 ∷ 100 ∷ 32 ∷ 99 ∷ 111
        ∷ 110 ∷ 118 ∷ 101 ∷ 114 ∷ 115 ∷ 97 ∷ 116 ∷ 105 ∷ 111 ∷ 110 ∷ []);
}

-- /status: Show provider usage and limits.
abbrev command_status : CommandDefinition
command_status = record {
  name = (47 ∷ 115 ∷ 116 ∷ 97 ∷ 116 ∷ 117 ∷ 115 ∷ []);
  description =
      (83 ∷ 104 ∷ 111 ∷ 119 ∷ 32 ∷ 112 ∷ 114 ∷ 111 ∷ 118 ∷ 105 ∷ 100 ∷ 101 ∷ 114 ∷ 32 ∷ 117 ∷ 115
        ∷ 97 ∷ 103 ∷ 101 ∷ 32 ∷ 97 ∷ 110 ∷ 100 ∷ 32 ∷ 108 ∷ 105 ∷ 109 ∷ 105 ∷ 116 ∷ 115 ∷ []);
}

-- /usage: Show provider usage and limits.
abbrev command_usage : CommandDefinition
command_usage = record {
  name = (47 ∷ 117 ∷ 115 ∷ 97 ∷ 103 ∷ 101 ∷ []);
  description =
      (83 ∷ 104 ∷ 111 ∷ 119 ∷ 32 ∷ 112 ∷ 114 ∷ 111 ∷ 118 ∷ 105 ∷ 100 ∷ 101 ∷ 114 ∷ 32 ∷ 117 ∷ 115
        ∷ 97 ∷ 103 ∷ 101 ∷ 32 ∷ 97 ∷ 110 ∷ 100 ∷ 32 ∷ 108 ∷ 105 ∷ 109 ∷ 105 ∷ 116 ∷ 115 ∷ []);
}

-- /exit: Exit Misy.
abbrev command_exit : CommandDefinition
command_exit = record {
  name = (47 ∷ 101 ∷ 120 ∷ 105 ∷ 116 ∷ []);
  description = (69 ∷ 120 ∷ 105 ∷ 116 ∷ 32 ∷ 77 ∷ 105 ∷ 115 ∷ 121 ∷ []);
}

abbrev pub commands : List CommandDefinition
commands =
    command_provider ∷ command_model ∷ command_tasks ∷ command_context ∷ command_thinking
    ∷ command_compact ∷ command_new ∷ command_clear ∷ command_resume ∷ command_status
    ∷ command_usage ∷ command_exit ∷ []
