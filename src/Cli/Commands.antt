-- ===== src/Cli/Commands.antt =====
-- internal/cli/cli.go: what the commands do when they run, and `Execute`. Each command is given the
-- parsed flags; the parser of the command line, the help and the encoders are parameters. A command
-- is started with all of its required flags.
use Prim.Native.Char.{code}
use ocihood.Base.{
  ℕ, String, Bool, true, false, ◌&&◌, ◌||◌, not, Option, none, some, List, ◌^^◌, str_eq, ◌==◌,
  if◌then◌else◌, to_lower, ℤ, pos, lt_int, is_some,
}
use ocihood.Errors.{Err, message, wrapped, error_text, is, not_exist}
use ocihood.Io.{Result, ok, err, and_then}
use ocihood.State.Disk.{Disk}
use ocihood.State.Store.{load_account}
use ocihood.Config.{Effective, Overrides, File}
use ocihood.Config.Resolve.{resolve, defaults, apply_overrides}
use ocihood.App.Plan.{Plan}
use ocihood.App.Prepare.{Request, ImageList}
use ocihood.App.Run.{RunResult}
use ocihood.Discovery.Version.{atoi}
use ocihood.Cli.Outcome.{CommandDocument, command_result, write}
use ocihood.Cli.Flags.{StartValues, ImageListValues, overrides, image_overrides}
use ocihood.Cli.Render.{
  PlanDocument, new_plan_document, plan_text, ImageListDocument, image_list_document, image_rows,
  status_text,
}

-- How a command returns: without an error, with an `exitError`, or with another error.
pub data CommandEnd : Type 0 where
  done : CommandEnd
  exits : ℕ → String → CommandEnd
  fails : Err → CommandEnd

-- What it wrote to its output, and how it returned.
abbrev pub Printed : Type 0
Printed = String × CommandEnd

-- The exit code of the process and what it writes to its error output.
unfoldable pub execute : CommandEnd → ℕ × String
execute done = (0, "")
execute (exits code text) = (code, "Error: " ^^ text ^^ "\n")
execute (fails e) = (1, "Error: " ^^ error_text e ^^ "\n")

abbrev pub refused : Err → Printed
refused e = ("", fails e)

-- A write to the output, which may fail.
abbrev pub print : Option Err → String → CommandEnd → Printed
print none text end = (text, end)
print (some e) text end = ("", fails e)

abbrev pub is_format : String → Bool
is_format mode = str_eq mode "text" || str_eq mode "json"

abbrev invalid_flag : String → String → Err
invalid_flag flag value = message ("invalid --" ^^ flag ^^ " \"" ^^ value ^^ "\"")

pub record ExecutionValues : Type 0 where
  pub once : Bool
  pub max_runtime : ℤ
  pub log_level : String
  pub log_format : String
  pub output_mode : String

-- A level's name, and its offset from the first sign on.
unfoldable pub split_level : String → String × Option String
split_level String.[] = ("", none)
split_level (String.◌∷◌ c s) =
    let rest = split_level s in
    if code c == b'+' || code c == b'-'
    then ("", some (String.◌∷◌ c s))
    else (String.◌∷◌ c rest.0, rest.1)

abbrev is_level_name : String → Bool
is_level_name name =
    let n = to_lower name in
    str_eq n "debug" || str_eq n "info" || str_eq n "warn" || str_eq n "error"

abbrev is_offset : Option String → Bool
is_offset none = true
is_offset (some text) = is_some (atoi text)

-- `level.UnmarshalText`
unfoldable pub is_level : String → Bool
unfolding split_level atoi
is_level s = is_level_name (split_level s).0 && is_offset (split_level s).1

-- The error of `logger`.
unfoldable pub logger_fault : ExecutionValues → Option Err
unfolding is_level
logger_fault v =
    if not (is_level v.log_level)
    then some (invalid_flag "log-level" v.log_level)
    else if not (is_format v.log_format)
    then some (invalid_flag "log-format" v.log_format)
    else if not (is_format v.output_mode)
    then some (invalid_flag "output" v.output_mode)
    else none

-- The request of a command, by its overrides and whether any flag of them was set.
abbrev request_of : String → String → Overrides × Bool → Bool → Request
request_of config_path account (o, is_set) once = record {
  config_path = config_path;
  account = account;
  overrides = o;
  configless = str_eq config_path "" && is_set;
  once = once;
}

-- The longest runtime that is set.
abbrev timeout_of : ℤ → Option ℤ
timeout_of d = if lt_int (pos 0) d then some d else none

module _ (changed : String → Bool) (config_path account : String) (write_error : Option Err) where
  abbrev start_request : ExecutionValues → StartValues → Request
  start_request v s = request_of config_path account (overrides changed s) v.once

  abbrev reported : Option Err → Option Err
  reported none = none
  reported (some e) = some (wrapped "write command result" e)

  -- After the run: the document, then the code.
  unfoldable pub report : (CommandDocument → String) → String → RunResult × Option Err → Printed
  report encode mode (result, e) =
      let (doc, code) = command_result account result e in
      print (reported write_error) (write encode mode doc)
        (if is_some e || not (code == 0) then exits code doc.message else done)

  -- `start`; `run` is the runner's `Run`, under a timeout where one is set.
  unfoldable pub start :
      (Request → Option ℤ → RunResult × Option Err)
      → (CommandDocument → String)
      → ExecutionValues
      → StartValues
      → Printed
  unfolding report logger_fault
  start run encode v s = elim (logger_fault v) [
    | some e ↦ refused e
    | none ↦
        if lt_int v.max_runtime (pos 0)
        then refused (message "--max-runtime must not be negative")
        else report encode v.output_mode (run (start_request v s) (timeout_of v.max_runtime))
  ]

  -- `plan`
  unfoldable pub plan :
      (Request → Result Plan) → (PlanDocument → String) → String → StartValues → Printed
  plan planned encode mode s =
      if not (is_format mode)
      then refused (invalid_flag "output" mode)
      else elim (planned (request_of config_path account (overrides changed s) false)) [
        | err e ↦ refused (wrapped "plan provisioning run" e)
        | ok p ↦
            print write_error
              (if str_eq mode "json" then encode (new_plan_document p) else plan_text p) done
      ]

  -- `images list`; `table` aligns the rows.
  unfoldable pub list_images :
      (Request → Result ImageList)
      → (ImageListDocument → String)
      → (List (List String) → String)
      → (ℕ → String)
      → String
      → ImageListValues
      → Printed
  list_images images encode table rfc3339 mode s =
      if not (is_format mode)
      then refused (invalid_flag "output" mode)
      else elim (images (request_of config_path account (image_overrides changed s) false)) [
        | err e ↦ refused (wrapped "list images" e)
        | ok l ↦
            print write_error
              (if str_eq mode "json"
                then encode (image_list_document l)
                else table (image_rows rfc3339 (image_list_document l)))
              done
      ]

module _ (user_config_dir user_home_dir : Result String) (path : String → Result String)
    (load : String → Result File) where
  unfoldable pub validate_config : String → CommandEnd
  validate_config config_path = elim (and_then (path config_path) load) [
    | err e ↦ fails e
    | ok _ ↦ done
  ]

  -- The configuration that `show` shows before the overrides.
  unfoldable pub shown : String → String → Bool → Result File → Result Effective
  shown config_path account is_set (ok f) = resolve user_config_dir user_home_dir f account
  shown config_path account is_set (err e) =
      if str_eq config_path "" && is_set && is not_exist e
      then defaults user_config_dir user_home_dir account
      else err e

  -- A failure to write what `show` and `status` print is left out.
  -- What `show` prints, where `marshal` is `config.MarshalEffective`.
  unfoldable pub show_config :
      (Effective → Result String) → (String → Bool) → String → String → StartValues → Result String
  unfolding shown
  show_config marshal changed config_path account s = and_then (path config_path) λ p.
      and_then (shown config_path account (overrides changed s).1 (load p))
        λ e. and_then (apply_overrides e (overrides changed s).0) marshal

  -- `status`
  unfoldable pub status : (String → String) → (ℕ → String) → String → String → Disk → Result String
  status sha256 rfc3339 config_path account disk = and_then (path config_path) λ p.
      and_then (load p) λ f.
        and_then (resolve user_config_dir user_home_dir f account) λ e.
          and_then (load_account sha256 e.state_dir account disk) λ v. ok (status_text rfc3339 v)
