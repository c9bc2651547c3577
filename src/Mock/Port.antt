-- ===== src/Mock/Port.antt =====
-- `_resolve_requested_port`: the port from the command line, the environment, or 0.
use project_charybdis.Base.{
  Option, none, some, List, [], ◌∷◌, Text, is_space, strip, ℤ, pos, Result, ok,
}
use project_charybdis.Json.{int_of_text}

-- The port from the stripped value of the variable; an empty one counts as not set.
unfoldable pub port_of_env : Text → Result ℤ
port_of_env [] = ok (pos 0)
port_of_env (c ∷ s) = int_of_text (c ∷ s)

abbrev pub env_or_empty : Option Text → Text
env_or_empty none = []
env_or_empty (some s) = s

-- The arguments are `sys.argv[1:]` and the value of MOCK_AGAMEMNON_PORT.
unfoldable pub resolve_requested_port : List Text → Option Text → Result ℤ
resolve_requested_port [] env = port_of_env (strip is_space (env_or_empty env))
resolve_requested_port (arg ∷ args) env = int_of_text arg
