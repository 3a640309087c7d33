-- ===== src/Server/Main.antt =====
-- src/main_server.cpp: the arguments, the environment, and the end of the server.
use cs.Prelude.{ℕ, ◌≡◌, refl, List, [], ◌∷◌, Bool, true, false, Option, none, some, if◌then◌else◌}
use cs.Result.{Result, ok, err}
use cs.Text.{Text, stoi, stoull}

-- The parsed number, or the default where the parsing throws.
abbrev pub or_default : Result ℕ → ℕ → ℕ
or_default (ok n) default = n
or_default (err e) default = default

-- `get_env_var<int>` and `get_env_var<size_t>`
unfoldable pub get_env_int : (Text → Option Text) → Text → ℕ → ℕ
get_env_int env name default_value = elim (env name) [
  | none ↦ default_value
  | some value ↦ or_default (stoi value) default_value
]

unfoldable pub get_env_size : (Text → Option Text) → Text → ℕ → ℕ
get_env_size env name default_value = elim (env name) [
  | none ↦ default_value
  | some value ↦ or_default (stoull value) default_value
]

-- The port of the first argument, or the default; an argument that is no number is the exit code 1.
unfoldable pub parse_port : ℕ → List Text → Option ℕ
parse_port default_port [] = some default_port
parse_port default_port (arg ∷ args) = elim (stoi arg) [ ok n ↦ some n | err e ↦ none ]

-- `g_server`, and whether the server runs.
pub record ServerMain : Type 0 where
  pub g_server : Bool
  pub running : Bool

unfoldable pub signal_handler : ServerMain → ServerMain
signal_handler m = if m.g_server then record m { running = false } else m

-- The loop of the non-interactive mode, a second a round, with whether a signal comes in each: the state
-- where `g_server` is null and `main` ends, or none where the loop still runs after the last round.
unfoldable pub wait_loop : List Bool → ServerMain → Option ServerMain
unfolding signal_handler
wait_loop [] m = none
wait_loop (signalled ∷ rounds) m =
    let later = wait_loop rounds (if signalled then signal_handler m else m) in
    if m.g_server then later else some m

-- No signal ends a server in non-interactive mode: the handler stops the server and leaves `g_server`, for
-- which the loop waits.
pub wait_loop-none :
    (rounds : List Bool) (m : ServerMain) → m.g_server ≡ true → wait_loop rounds m ≡ none
unfolding wait_loop signal_handler
wait_loop-none [] m e = refl
wait_loop-none (true ∷ rounds) m e =
    rw e (wait_loop-none rounds (record m { g_server = true; running = false }) refl)
wait_loop-none (false ∷ rounds) m e =
    rw e (wait_loop-none rounds (record m { g_server = true }) refl)
